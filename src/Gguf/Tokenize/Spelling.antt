-- ===== src/Gguf/Tokenize/Spelling.antt =====
-- Reading the tokens of a text gives the text back.
use fae.Prelude.{
  ℕ, zero, suc, ◌≤◌, ◌≡◌, ◌≢◌, refl, sym, subst, ◌∙◌, ap, ◌⊎◌, inl, inr, arith, none, some, List,
  [], ◌∷◌, ◌++◌, length, take, drop, get_or, get_elem?, All, take-append-drop, All-of_append,
}
use fae.Gguf.Vocab.{Vocab, build, find_token}
use fae.Gguf.Vocab.Lookup.{IsLast, IsFirst, find_token_table, find_token_scan}
use fae.Gguf.Tokenize.{Tokenizer, lookup, tokenize}
use fae.Gguf.Tokenize.Greedy.{Greedy, done, match, miss, bos, tokenize-Greedy}

-- The bytes of a sequence of tokens.
abbrev pub spell : Vocab → List ℕ → List ℕ
spell v [] = []
spell v (t ∷ ts) = get_or v t [] ++ spell v ts

-- The table is as it was built, or missing because its allocation failed.
abbrev pub IsBuilt : Tokenizer → Type 0
IsBuilt z = (z.table ≡ none) ⊎ (z.table ≡ some (build z.vocab))

get_or_of_get_elem? : (v : Vocab) (i : ℕ) {s : List ℕ} → get_elem? v i ≡ some s → get_or v i [] ≡ s
get_or_of_get_elem? [] i e = cc
get_or_of_get_elem? (x ∷ v) zero e = cc
get_or_of_get_elem? (x ∷ v) (suc i) e = get_or_of_get_elem? v i e

-- A lookup answers a token that reads as the text.
lookup-spells :
    (z : Tokenizer) (s : List ℕ) {tok : ℕ}
    → IsBuilt z
    → lookup z s ≡ some tok
    → get_or z.vocab tok [] ≡ s
lookup-spells z s (inl n) e =
    get_or_of_get_elem? z.vocab _
      (subst (IsFirst z.vocab s) (ap (λ t. find_token z.vocab t s) (sym n) ∙ e)
        (find_token_scan z.vocab s)).0
lookup-spells z s (inr b) e =
    get_or_of_get_elem? z.vocab _
      (subst (IsLast z.vocab s) (ap (λ t. find_token z.vocab t s) (sym b) ∙ e)
        (find_token_table z.vocab s)).0

-- Each byte of the text is a token by itself.
abbrev pub HasBytes : Tokenizer → List ℕ → Type 0
HasBytes z text = All (λ c. lookup z (c ∷ []) ≢ none) text

Greedy-spell :
    (z : Tokenizer) {text ts : List ℕ}
    → IsBuilt z
    → Greedy z text ts
    → HasBytes z text
    → spell z.vocab ts ≡ text
Greedy-spell z b done h = refl
Greedy-spell z b (match {c} {text} {ts} tok l is g) h =
    let rest =
      Greedy-spell z b g
        (All-of_append _ (take l (c ∷ text)) (drop l (c ∷ text))
          (subst (HasBytes z) (sym (take-append-drop l (c ∷ text))) h)).1 in
    rw (lookup-spells z (take l (c ∷ text)) b is.2, rest) (take-append-drop l (c ∷ text))
Greedy-spell z b (miss {c} {text} {ts} is g) h = absurd (h.0 (is 1 (omega arith) (omega arith)))

-- With no hash table or with the one built from the vocabulary, and where every byte of the text is
-- a token by itself, as in a byte-level vocabulary: `tokenize` returns, and the tokens that it
-- stores after the start token, if that is added, read as the text.
pub spell-tokenize :
    (z : Tokenizer) (text : List ℕ)
    → IsBuilt z
    → HasBytes z text
    → (ts : List ℕ) × (tokenize z text ≡ some (bos z ++ ts)) × (spell z.vocab ts ≡ text)
spell-tokenize z text b h =
    let (ts, r, g, s) = tokenize-Greedy z text in (ts, r, Greedy-spell z b g h)

-- No prefix of any rest of the text is a token.
abbrev pub MatchesNowhere : Tokenizer → List ℕ → Type 0
MatchesNowhere z [] = Unit
MatchesNowhere z (c ∷ text) =
    ((l : ℕ) → 1 ≤ l → lookup z (take l (c ∷ text)) ≡ none) × MatchesNowhere z text

Greedy-count :
    (z : Tokenizer) {text ts : List ℕ}
    → Greedy z text ts
    → MatchesNowhere z text
    → length ts ≡ length text
Greedy-count z done h = refl
Greedy-count z (match {c} {text} tok l is g) h = absurd (cc (is.2, h.0 l is.0))
Greedy-count z (miss is g) h = ap suc (Greedy-count z g h.1)

-- Where nothing of the text is a token, `tokenize` stores one token for each byte besides the start
-- token, so that no bound of its array but the text's own length holds.
pub tokenize_unmatched :
    (z : Tokenizer) (text : List ℕ)
    → MatchesNowhere z text
    → (ts : List ℕ) × (tokenize z text ≡ some (bos z ++ ts)) × (length ts ≡ length text)
tokenize_unmatched z text h =
    let (ts, r, g, s) = tokenize-Greedy z text in (ts, r, Greedy-count z g h)
