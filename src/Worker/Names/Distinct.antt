-- ===== src/Worker/Names/Distinct.antt =====
-- Chunk files and temporary files never share a name.
use distributed_cache_system.Prelude.{
  ℕ, ◌≡◌, ◌≢◌, refl, sym, ap, ◌∙◌, true, List, [], ◌∷◌, ◌++◌, append_assoc, ◌==◌, if◌then◌else◌,
  length, length-append, arith,
}
use distributed_cache_system.Types.{ChunkId, all_lower_hex}
use distributed_cache_system.Posix.{FilePath, Posix}
use distributed_cache_system.Worker.Names.{encode_hex, path_for, temp_path}
use distributed_cache_system.Worker.Names.Hex.{
  IsBytes, encode_hex_injective, encode_hex-all_lower_hex,
}

-- A name up to its first dot, and what follows that dot.
before_dot : List ℕ → List ℕ
before_dot [] = []
before_dot (c ∷ cs) = let rest = before_dot cs in if c == b'.' then [] else c ∷ rest

after_dot : List ℕ → List ℕ
after_dot [] = []
after_dot (c ∷ cs) = let rest = after_dot cs in if c == b'.' then cs else rest

before_dot-hex :
    (cs rest : List ℕ) → all_lower_hex cs ≡ true → before_dot (cs ++ (b'.' ∷ rest)) ≡ cs
unfolding before_dot all_lower_hex
before_dot-hex [] rest h = refl
before_dot-hex (c ∷ cs) rest h = ground (arith, before_dot-hex cs rest)

after_dot-hex :
    (cs rest : List ℕ) → all_lower_hex cs ≡ true → after_dot (cs ++ (b'.' ∷ rest)) ≡ rest
unfolding after_dot all_lower_hex
after_dot-hex [] rest h = refl
after_dot-hex (c ∷ cs) rest h = ground (arith, after_dot-hex cs rest)

-- Two ids have one chunk file only if they are one id.
pub path_for_injective :
    (root : List ℕ) (a b : ChunkId)
    → IsBytes a.value
    → IsBytes b.value
    → path_for root a ≡ path_for root b
    → a ≡ b
unfolding path_for
path_for_injective root a b ha hb e =
    let p : encode_hex a.value ≡ encode_hex b.value =
      sym (before_dot-hex (encode_hex a.value) _ (encode_hex-all_lower_hex a.value ha))
      ∙ ap (λ (f : FilePath). before_dot f.filename) e
      ∙ before_dot-hex (encode_hex b.value) _ (encode_hex-all_lower_hex b.value hb) in
    ap (λ v. record { value = v }) (encode_hex_injective a.value b.value ha hb p)

-- A temporary file of one upload is no id's chunk file.
pub temp_path-ne-path_for :
    (os : Posix) (root : List ℕ) (a b : ChunkId) (address : ℕ)
    → IsBytes a.value
    → IsBytes b.value
    → temp_path os root (path_for root a) address ≢ path_for root b
unfolding path_for temp_path
temp_path-ne-path_for os root a b address ha hb e =
    let p =
      sym (after_dot-hex (encode_hex a.value) _ (encode_hex-all_lower_hex a.value ha))
      ∙ ap after_dot (sym (append_assoc (encode_hex a.value) _ _))
      ∙ ap (λ (f : FilePath). after_dot f.filename) e
      ∙ after_dot-hex (encode_hex b.value) _ (encode_hex-all_lower_hex b.value hb) in
    cc p

-- A temporary file is not the file that it becomes.
pub temp_path-ne_self :
    (os : Posix) (root : List ℕ) (final : FilePath) (address : ℕ)
    → temp_path os root final address ≢ final
unfolding temp_path
temp_path-ne_self os root final address e =
    let p = ap (λ (f : FilePath). length f.filename) e in
    absurd (omega (arith, p, length-append final.filename))
