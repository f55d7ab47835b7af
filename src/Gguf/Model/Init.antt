-- ===== src/Gguf/Model/Init.antt =====
-- `gguf_init` on a file that a writer has put into memory.
use fae.Prelude.{
  ℕ, ◌+◌, ◌^◌, ◌<◌, ◌≤◌, ◌≡◌, ap, ap₂, ◌∙◌, arith, Bool, List, ◌++◌, length, length-append, codes,
  eq_bytes, Memory, load64, All, if◌then◌else◌,
}
use fae.Gguf.Loader.{Slot, Loaded, bytes_at, parse_pairs}
use fae.Gguf.Loader.Encoding.{
  little, Entry, encode_entries, Holds, Holds-at, Holds-append, load64-little,
}
use fae.Gguf.Loader.Texts.{bytes_at-Holds}
use fae.Gguf.Loader.View.{view, note_entries, IsEntry}
use fae.Gguf.Loader.Metadata.{parse_pairs-view}
use fae.Gguf.Tensors.{Info, tensor_rounds, parse_infos}
use fae.Gguf.Tensors.Infos.{encode_infos, IsInfo, parse_infos-Holds}
use fae.Gguf.Model.{gguf_init, conclude, Result, failed}

abbrev pub encode_head : ℕ → List Entry → List Info → List ℕ
encode_head version es is =
    codes "GGUF" ++ (little 4 version ++ (little 8 (length is) ++ little 8 (length es)))

-- A whole file, up to its tensor data.
abbrev pub encode_file : ℕ → List Entry → List Info → List ℕ
encode_file version es is = encode_head version es is ++ (encode_entries es ++ encode_infos is)

tensor_rounds_lem : (n : ℕ) → n ≤ 512 → tensor_rounds n ≡ n
tensor_rounds_lem n h = ground arith

module _ (grants : ℕ → ℕ → Bool) (junk : ℕ → Slot) (m : Memory) where
  -- `gguf_init` on a file that a writer has put into memory, with fewer than 2 ^ 64 metadata
  -- entries, at most 512 tensors of at most 4 dimensions each, and texts and numbers within the
  -- sizes of their encoding: behind the two parsing loops the rest of the function works on the
  -- writer's tensor infos, on the address behind the file's head, and on globals that say what the
  -- writer's metadata means, with a note when it has more scores than tokens, which are stored
  -- behind the array's end.
  pub gguf_init-encode_file :
      (buffer version : ℕ) (es : List Entry) (is : List Info) (s : Loaded)
      → length es < 2 ^ 64
      → length is ≤ 512
      → All IsEntry es
      → All IsInfo is
      → Holds m buffer (encode_file version es is)
      → (t : Loaded) × (gguf_init grants junk m buffer s
          ≡ conclude grants buffer t is (buffer + length (encode_file version es is)))
        × (view m t ≡ note_entries grants junk es (view m s))
  unfolding gguf_init
  gguf_init-encode_file buffer version es is s few max entries infos h =
      let counts : List ℕ = little 8 (length is) ++ little 8 (length es) in
      let (head, body) =
        Holds-append m buffer (encode_head version es is) (encode_entries es ++ encode_infos is)
          h in
      let (magic, rest) = Holds-append m buffer (codes "GGUF") (little 4 version ++ counts) head in
      let (_, words) = Holds-append m (buffer + 4) (little 4 version) counts rest in
      let (second, third) =
        Holds-append m (buffer + 4 + 4) (little 8 (length is)) (little 8 (length es)) words in
      let tensors : load64 m (buffer + 8) ≡ length is =
        load64-little m (buffer + 8) (length is) (omega (arith, max))
          (Holds-at m {p = buffer + 4 + 4} (little 8 (length is)) (omega arith) second) in
      let pairs : load64 m (buffer + 16) ≡ length es =
        load64-little m (buffer + 16) (length es) few
          (Holds-at m {p = buffer + 4 + 4 + 8} (little 8 (length es)) (omega arith) third) in
      let rounds : tensor_rounds (load64 m (buffer + 8)) ≡ length is =
        ap tensor_rounds tensors ∙ tensor_rounds_lem (length is) max in
      let (e, i) = Holds-append m (buffer + 24) (encode_entries es) (encode_infos is) body in
      let (at, seen) = parse_pairs-view grants junk m es (buffer + 24) s entries e in
      let t : Loaded = (parse_pairs grants junk m (length es) (buffer + 24) s).1 in
      let found = parse_infos-Holds m (buffer + 24 + length (encode_entries es)) is infos i in
      let size : buffer + 24 + length (encode_entries es) + length (encode_infos is)
          ≡ buffer + length (encode_file version es is) =
        omega (arith, length-append (encode_entries es) (encode_infos is)) in
      let end : Loaded → ℕ × List Info → Result = λ u r.
        if eq_bytes (bytes_at m buffer 4) (codes "GGUF")
        then conclude grants buffer u r.1 r.0
        else failed in
      let same : bytes_at m buffer 4 ≡ codes "GGUF" =
        bytes_at-Holds m buffer (codes "GGUF") magic in
      (
        t,
        ap₂
              (λ n r.
                let q = parse_pairs grants junk m n (buffer + 24) s in
                end q.1 (parse_infos m r q.0))
              pairs rounds
            ∙ ap (λ q. end t (parse_infos m (length is) q)) at
            ∙ ap (end t) found
            ∙ ap
                (λ b.
                  if eq_bytes b (codes "GGUF")
                  then conclude grants buffer t is
                      (buffer + 24 + length (encode_entries es) + length (encode_infos is))
                  else failed)
                same
            ∙ ap (conclude grants buffer t is) size,
        seen,
      )
