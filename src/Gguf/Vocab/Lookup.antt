-- ===== src/Gguf/Vocab/Lookup.antt =====
-- What a lookup finds: with the table the last token of the text, without it the first.
use fae.Prelude.{
  ℕ, zero, suc, ◌+◌, ◌<◌, ◌≡◌, ◌≢◌, refl, subst, ◌∙◌, ap, ◌⊎◌, inl, inr, arith, false, Option, none,
  some, List, [], ◌∷◌, ◌==◌, if◌then◌else◌, eq_bytes, eq_bytes-eq, eq_bytes_refl, get_or, get_elem?,
  Bool-cases,
}
use fae.Gguf.Vocab.{
  Vocab, Table, hash_str, add_entry, build_from, build, empty_table, walk, scan_from, find_token,
}

-- The last id of a text: that in the rest of the vocabulary, or else this one.
abbrev pub last_from : ℕ → Vocab → List ℕ → Option ℕ → Option ℕ
last_from i [] s found = found
last_from i (token ∷ tokens) s found =
    last_from (i + 1) tokens s (if eq_bytes token s then some i else found)

-- The tokens from id `i` on are the list `rest`.
abbrev SuffixAt : Vocab → ℕ → Vocab → Type 0
SuffixAt v i rest = (j p : ℕ) → p ≡ i + j → get_or v p [] ≡ get_or rest j []

walk-add_entry :
    (v : Vocab) (s : List ℕ) (t : Table) (i : ℕ) (token : List ℕ)
    → get_or v i [] ≡ token
    → walk v s (add_entry t i token (hash_str s))
      ≡ (if eq_bytes token s then some i else walk v s (t (hash_str s)))
unfolding add_entry walk
walk-add_entry v s t i token at_i = elim (Bool-cases (hash_str s == hash_str token)) [
  | inl same ↦ rw (same, at_i)
  | inr other ↦ elim (Bool-cases (eq_bytes token s)) [
    | inl hit ↦ absurd (ground (arith, other, ap hash_str (eq_bytes-eq token s hit)))
    | inr miss ↦ rw (other, miss)
  ]
]

walk_build :
    (v : Vocab) (s : List ℕ) (i : ℕ) (rest : Vocab) (t : Table)
    → SuffixAt v i rest
    → walk v s (build_from t i rest (hash_str s)) ≡ last_from i rest s (walk v s (t (hash_str s)))
unfolding build_from
walk_build v s i [] t h = refl
walk_build v s i (token ∷ rest) t h =
    let here : get_or v i [] ≡ token = h 0 i (omega arith) in
    walk_build v s (i + 1) rest (add_entry t i token) (λ j p e. h (suc j) p (omega arith))
    ∙ ap (last_from (i + 1) rest s) (walk-add_entry v s t i token here)

-- What a search for the last token of a text says.
abbrev pub IsLast : Vocab → List ℕ → Option ℕ → Type 0
IsLast v s none = (j : ℕ) → get_elem? v j ≢ some s
IsLast v s (some i) = (get_elem? v i ≡ some s) × ((j : ℕ) → i < j → get_elem? v j ≢ some s)

abbrev pub IsFirst : Vocab → List ℕ → Option ℕ → Type 0
IsFirst v s none = (j : ℕ) → get_elem? v j ≢ some s
IsFirst v s (some i) = (get_elem? v i ≡ some s) × ((j : ℕ) → j < i → get_elem? v j ≢ some s)

-- The same of the tokens from id `i` on, with an answer from before.
LastFrom : ℕ → Vocab → List ℕ → Option ℕ → Option ℕ → Type 0
LastFrom i rest s found r =
    ((r ≡ found) × ((j : ℕ) → get_elem? rest j ≢ some s))
    ⊎ ((j p : ℕ) × (p ≡ i + j)
        × (r ≡ some p)
        × (get_elem? rest j ≡ some s)
        × ((k : ℕ) → j < k → get_elem? rest k ≢ some s))

later_suc :
    (token s : List ℕ) (rest : Vocab) (j k : ℕ)
    → suc j < k
    → ((k' : ℕ) → j < k' → get_elem? rest k' ≢ some s)
    → get_elem? (token ∷ rest) k ≢ some s
later_suc token s rest j zero h later = absurd (omega arith)
later_suc token s rest j (suc k) h later = later k (omega arith)

behind :
    (token s : List ℕ) (rest : Vocab) (k : ℕ)
    → 0 < k
    → ((j : ℕ) → get_elem? rest j ≢ some s)
    → get_elem? (token ∷ rest) k ≢ some s
behind token s rest zero h absent = absurd (omega arith)
behind token s rest (suc k) h absent = absent k

missing_too :
    (token s : List ℕ) (rest : Vocab) (k : ℕ)
    → eq_bytes token s ≡ false
    → ((j : ℕ) → get_elem? rest j ≢ some s)
    → get_elem? (token ∷ rest) k ≢ some s
missing_too token s rest zero miss absent e =
    let same : token ≡ s = cc in cc (miss, ap (λ t. eq_bytes t s) same, eq_bytes_refl s)
missing_too token s rest (suc k) miss absent e = absent k e

last_from-LastFrom :
    (i : ℕ) (rest : Vocab) (s : List ℕ) (found : Option ℕ)
    → LastFrom i rest s found (last_from i rest s found)
unfolding LastFrom
last_from-LastFrom i [] s found = inl (refl, λ j e. cc)
last_from-LastFrom i (token ∷ rest) s found =
    elim (last_from-LastFrom (i + 1) rest s (if eq_bytes token s then some i else found)) [
      | inr (j, p, e, r, at_j, later) ↦
          inr (suc j, p, omega arith, r, at_j, λ k h. later_suc token s rest j k h later)
      | inl (r, absent) ↦ elim (Bool-cases (eq_bytes token s)) [
        | inl hit ↦ inr (
          0,
          i,
          omega arith,
          r ∙ ap (λ t. if t then some i else found) hit,
          ap some (eq_bytes-eq token s hit),
          λ k h. behind token s rest k h absent,
        )
        | inr miss ↦ inl (
          r ∙ ap (λ t. if t then some i else found) miss,
          λ k. missing_too token s rest k miss absent,
        )
      ]
    ]

LastFrom-IsLast : (v : Vocab) (s : List ℕ) (r : Option ℕ) → LastFrom 0 v s none r → IsLast v s r
unfolding LastFrom
LastFrom-IsLast v s none h = elim h [
  | inl (e, absent) ↦ absent
  | inr (j, p, q, e, x, later) ↦ absurd (cc)
]
LastFrom-IsLast v s (some i) h = elim h [
  | inl (e, absent) ↦ absurd (cc)
  | inr (j, p, q, e, x, later) ↦
      let same : j ≡ i = ground (arith, e) in
      (subst (λ z. get_elem? v z ≡ some s) same x, λ k l. later k (omega arith))
]

-- With the hash table that was built from the vocabulary, a lookup answers the id of the last token
-- that is the text, and none exactly when no token is.
pub find_token_table : (v : Vocab) (s : List ℕ) → IsLast v s (find_token v (some (build v)) s)
unfolding find_token build
find_token_table v s =
    let found : walk v s (build v (hash_str s)) ≡ last_from 0 v s none =
      walk_build v s 0 v empty_table (λ j p e. ap (λ z. get_or v z []) (e ∙ omega arith)) in
    rw found (LastFrom-IsLast v s _ (last_from-LastFrom 0 v s none))

-- The same, forwards, for the sequential scan.
FirstFrom : ℕ → Vocab → List ℕ → Option ℕ → Type 0
FirstFrom i rest s r =
    ((r ≡ none) × ((j : ℕ) → get_elem? rest j ≢ some s))
    ⊎ ((j p : ℕ) × (p ≡ i + j)
        × (r ≡ some p)
        × (get_elem? rest j ≡ some s)
        × ((k : ℕ) → k < j → get_elem? rest k ≢ some s))

before_suc :
    (token s : List ℕ) (rest : Vocab) (j k : ℕ)
    → eq_bytes token s ≡ false
    → k < suc j
    → ((k' : ℕ) → k' < j → get_elem? rest k' ≢ some s)
    → get_elem? (token ∷ rest) k ≢ some s
before_suc token s rest j zero miss h earlier e =
    let same : token ≡ s = cc in cc (miss, ap (λ t. eq_bytes t s) same, eq_bytes_refl s)
before_suc token s rest j (suc k) miss h earlier e = earlier k (omega arith) e

scan_from-FirstFrom : (i : ℕ) (rest : Vocab) (s : List ℕ) → FirstFrom i rest s (scan_from i rest s)
unfolding FirstFrom scan_from
scan_from-FirstFrom i [] s = inl (refl, λ j e. cc)
scan_from-FirstFrom i (token ∷ rest) s = elim (Bool-cases (eq_bytes token s)) [
  | inl hit ↦
      inr
        (0, i, omega arith, rw hit, ap some (eq_bytes-eq token s hit), λ k h. absurd (omega arith))
  | inr miss ↦ rw miss (elim (scan_from-FirstFrom (i + 1) rest s) [
    | inl (e, absent) ↦ inl (e, λ k. missing_too token s rest k miss absent)
    | inr (j, p, q, e, x, earlier) ↦
        inr (suc j, p, omega arith, e, x, λ k h. before_suc token s rest j k miss h earlier)
  ])
]

FirstFrom-IsFirst : (v : Vocab) (s : List ℕ) (r : Option ℕ) → FirstFrom 0 v s r → IsFirst v s r
unfolding FirstFrom
FirstFrom-IsFirst v s none h = elim h [
  | inl (e, absent) ↦ absent
  | inr (j, p, q, e, x, earlier) ↦ absurd (cc)
]
FirstFrom-IsFirst v s (some i) h = elim h [
  | inl (e, absent) ↦ absurd (cc)
  | inr (j, p, q, e, x, earlier) ↦
      let same : j ≡ i = ground (arith, e) in
      (subst (λ z. get_elem? v z ≡ some s) same x, λ k l. earlier k (omega arith))
]

-- Without the table a lookup answers the id of the first token that is the text, and -1 exactly
-- when no token is.
pub find_token_scan : (v : Vocab) (s : List ℕ) → IsFirst v s (find_token v none s)
unfolding find_token
find_token_scan v s = FirstFrom-IsFirst v s _ (scan_from-FirstFrom 0 v s)

-- In a vocabulary without repeated tokens the table changes no answer.
pub find_token-same :
    (v : Vocab) (s : List ℕ)
    → ((i j : ℕ) → get_elem? v i ≡ some s → get_elem? v j ≡ some s → i ≡ j)
    → find_token v (some (build v)) s ≡ find_token v none s
find_token-same v s once =
    both (find_token v (some (build v)) s) (find_token v none s) (find_token_table v s)
      (find_token_scan v s)
  where
    both : (a b : Option ℕ) → IsLast v s a → IsFirst v s b → a ≡ b
    both none none l f = refl
    both none (some b) l f = absurd (l b f.0)
    both (some a) none l f = absurd (f a l.0)
    both (some a) (some b) l f = ap some (once a b l.0 f.0)
