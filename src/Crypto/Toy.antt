-- ===== src/Crypto/Toy.antt =====
-- A toy library in place of the cryptographic ones: a text is sealed behind a tag that shows its
-- nonce, and the secret of two keys is their sum.
use qotp.Base.{
  ℕ, ◌+◌, ◌≡◌, ◌≢◌, inl, inr, refl, sym, ap, ◌∙◌, true, ◌&&◌, List, [], ◌∷◌, ◌++◌, arith, some,
  none, Bool-cases, Option, if◌then◌else◌, leb, length, take, drop, replicate, length-append,
  length-take, take-append_length, take-append_le, take-append-drop,
}
use qotp.Crypto.Library.{Aead, CryptoLib, Suite}

-- What follows a tag.
unfoldable pub strip : List ℕ → List ℕ → Option (List ℕ)
strip [] rest = some rest
strip (t ∷ tag) [] = none
strip (t ∷ tag) (x ∷ rest) = if leb t x && leb x t then strip tag rest else none

abbrev pub tag : List ℕ → List ℕ
tag nonce = take 16 (nonce ++ replicate 16 0)

strip-append : (t rest : List ℕ) → strip t (t ++ rest) ≡ some rest
unfolding strip
strip-append [] rest = refl
strip-append (t ∷ tag) rest =
    let same : leb t t ≡ true = ground arith in rw same (strip-append tag rest)

strip_other : (t s rest : List ℕ) → length t ≡ length s → t ≢ s → strip t (s ++ rest) ≡ none
unfolding strip
strip_other [] [] rest same ne = absurd (ne refl)
strip_other [] (x ∷ s) rest same ne = absurd (omega arith)
strip_other (x ∷ t) [] rest same ne = absurd (omega arith)
strip_other (x ∷ t) (y ∷ s) rest same ne = elim (Bool-cases (leb x y && leb y x)) [
  | inl e ↦
      let eq : x ≡ y = ground arith in
      rw e (strip_other t s rest (omega arith) (λ q. ne (rw (eq, q))))
  | inr e ↦ rw e refl
]

abbrev pub toy_aead : Aead
toy_aead = record {
  seal = λ nonce text header. tag nonce ++ text;
  open_sealed = λ nonce sealed header. strip (tag nonce) sealed;
}

abbrev pub toy_aead_x : Aead
toy_aead_x = record {
  seal = λ nonce text header. text ++ replicate 16 0;
  open_sealed = λ nonce sealed header. none;
}

unfoldable pub add_bytes : List ℕ → List ℕ → List ℕ
add_bytes (x ∷ xs) (y ∷ ys) = (x + y) ∷ add_bytes xs ys
add_bytes xs ys = []

abbrev pub toy : CryptoLib
toy = record {
  new_aead = λ key. some toy_aead;
  new_aead_x = λ key. some toy_aead_x;
  xor_key_stream = λ key nonce bytes. some bytes;
  public_key = λ prv. prv;
  new_public_key = λ bytes. some bytes;
  ecdh = λ prv pub_key. some (add_bytes prv pub_key);
}

length-tag : (nonce : List ℕ) → length (tag nonce) ≡ 16
length-tag nonce =
    let zeros : List ℕ = replicate 16 0 in
    omega (arith, length-take 16 (nonce ++ zeros), length-append nonce zeros)

tag_inj : (n n' : List ℕ) → length n ≡ 12 → length n' ≡ 12 → tag n ≡ tag n' → n ≡ n'
tag_inj n n' size size' same =
    let zeros : List ℕ = replicate 16 0 in
    let front : (m : List ℕ) → length m ≡ 12 → take 12 (tag m) ≡ m = λ m at.
      let whole : List ℕ = m ++ zeros in
      sym (take-append_le 12 (tag m) (drop 16 whole) (omega (arith, length-tag m)))
      ∙ ap (take 12) (take-append-drop 16 whole)
      ∙ rw at at (take-append_length m zeros) in
    sym (front n size) ∙ ap (take 12) same ∙ front n' size'

pub toy_suite : (secret : List ℕ) → Suite toy secret
toy_suite secret = record {
  aead = toy_aead;
  aead_x = toy_aead_x;
  new_aead = refl;
  new_aead_x = refl;
  length-seal = λ n t h. omega (arith, length-append (tag n) t, length-tag n);
  length-seal_x = λ n t h. length-append t (replicate 16 0);
  open-seal = λ n t h. strip-append (tag n) t;
  open-seal_other = λ n n' t h size size' ne.
      strip_other (tag n') (tag n) t (length-tag n' ∙ sym (length-tag n))
        (λ same. ne (tag_inj n n' size size' (sym same)));
  xor-seal_x = λ n t size size'. ap some (rw size' at (take-append_length t (replicate 16 0)));
}
