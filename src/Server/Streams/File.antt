-- ===== src/Server/Streams/File.antt =====
-- The content of a file and writes into it.
use wsfs_core.Prelude.{
  ℕ, suc, ◌+◌, ◌<◌, ◌≡◌, refl, ◌∙◌, [], ◌∷◌, ◌++◌, ◌==◌, if◌then◌else◌, length, arith, Bool-cases,
  inl, inr, false, ap,
}
use wsfs_core.Wire.Bytes.{Bytes}

-- The bytes at the offsets of a file once the bytes are written at one.
abbrev pub patched : ℕ → Bytes → (ℕ → ℕ) → ℕ → ℕ
patched off [] f i = f i
patched off (b ∷ d) f i = if i == off then b else patched (off + 1) d f i

-- A write does not touch what is in front of it, and depends on nothing else.
patched-front : (off : ℕ) (d : Bytes) (f : ℕ → ℕ) (i : ℕ) → i < off → patched off d f i ≡ f i
patched-front off [] f i h = refl
patched-front off (b ∷ d) f i h =
    let other : (i == off) ≡ false = ground arith in
    rw other (patched-front (off + 1) d f i (omega arith))

pub patched-same :
    (off : ℕ) (d : Bytes) (f g : ℕ → ℕ) (i : ℕ) → f i ≡ g i → patched off d f i ≡ patched off d g i
patched-same off [] f g i e = e
patched-same off (b ∷ d) f g i e = rw (patched-same (off + 1) d f g i e) refl

-- Two writes one behind the other are one.
pub patched-append :
    (off : ℕ) (a b : Bytes) (f : ℕ → ℕ) (i : ℕ)
    → patched (off + length a) b (patched off a f) i ≡ patched off (a ++ b) f i
patched-append off [] b f i = ap (λ o. patched o b f i) (omega arith)
patched-append off (x ∷ a) b f i = elim (Bool-cases (i == off)) [
  | inl here ↦
      let front = patched-front (off + suc (length a)) b (patched off (x ∷ a) f) i (ground arith) in
      rw here (front ∙ rw here refl)
  | inr there ↦ rw there (
      patched-same (off + suc (length a)) b (patched off (x ∷ a) f) (patched (off + 1) a f) i
        (rw there refl)
      ∙ ap (λ o. patched o b (patched (off + 1) a f) i) (omega arith)
      ∙ patched-append (off + 1) a b f i)
]
