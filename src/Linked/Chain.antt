-- ===== src/Linked/Chain.antt =====
-- Chains of nodes: their links in both directions, and what a change of a node does to them.
use qotp.Base.{
  ℕ, suc, length, ◌≡◌, ◌≢◌, refl, sym, ap, ◌∙◌, arith, Option, none, some, List, [], ◌∷◌, ◌++◌,
  if◌then◌else◌, ◌==◌, ==_self, ==_ne, Bool-cases, inl, inr,
}
use qotp.Entries.{Entries}
use qotp.Linked.{Node, update_at, set_next}

-- A cell: the address of a node, its key and its value.
abbrev pub Cell {ℓ} : Type ℓ → Type ℓ
Cell V = ℕ × ℕ × V

module _ {ℓ} {V : Type ℓ} where
  abbrev pub entries : List (Cell V) → Entries V
  entries [] = []
  entries ((a, k, v) ∷ cells) = (k, v) ∷ entries cells

  pub length-entries : (cells : List (Cell V)) → length cells ≡ length (entries cells)
  length-entries [] = refl
  length-entries (c ∷ cells) = ap suc (length-entries cells)

  -- The node of a key.
  abbrev pub address : ℕ → List (Cell V) → Option ℕ
  address k [] = none
  address k ((a, j, v) ∷ cells) = if j == k then some a else address k cells

  -- The links from `p` on, up to `stop`, and back to `p`.
  abbrev pub Nexts : (ℕ → Node V) → ℕ → List (Cell V) → ℕ → Type 0
  Nexts node p [] stop = (node p).next ≡ stop
  Nexts node p ((a, k, v) ∷ cells) stop = ((node p).next ≡ a) × Nexts node a cells stop

  abbrev pub Prevs : (ℕ → Node V) → ℕ → List (Cell V) → Type 0
  Prevs node p [] = Unit
  Prevs node p ((a, k, v) ∷ cells) = ((node a).prev ≡ p) × Prevs node a cells

  abbrev pub Holds : (ℕ → Node V) → List (Cell V) → Type ℓ
  Holds node [] = Unit
  Holds node ((a, k, v) ∷ cells) = ((node a).key ≡ k) × ((node a).value ≡ some v) × Holds node cells

  -- The address `a` is none of the chain's.
  abbrev pub Off : ℕ → List (Cell V) → Type 0
  Off a [] = Unit
  Off a ((b, k, v) ∷ cells) = (b ≢ a) × Off a cells

  abbrev pub Apart : List (Cell V) → Type 0
  Apart [] = Unit
  Apart ((a, k, v) ∷ cells) = Off a cells × Apart cells

  -- No key stands twice.
  abbrev pub Keys : List (Cell V) → Type 0
  Keys [] = Unit
  Keys ((a, k, v) ∷ cells) = (address k cells ≡ none) × Keys cells

  abbrev pub last : ℕ → List (Cell V) → ℕ
  last p [] = p
  last p ((a, k, v) ∷ cells) = last a cells

  pub last-Off : (a p : ℕ) (cells : List (Cell V)) → p ≢ a → Off a cells → last p cells ≢ a
  last-Off a p [] ne off = ne
  last-Off a p ((b, k, v) ∷ cells) ne (ne', off) = last-Off a b cells ne' off

  pub last-append :
      (p a k : ℕ) (v : V) (cells : List (Cell V)) → last p (cells ++ ((a, k, v) ∷ [])) ≡ a
  last-append p a k v [] = refl
  last-append p a k v ((b, j, w) ∷ cells) = last-append b a k v cells

  pub Off-append :
      (x a k : ℕ) (v : V) (cells : List (Cell V))
      → Off x cells
      → a ≢ x
      → Off x (cells ++ ((a, k, v) ∷ []))
  Off-append x a k v [] off ne = (ne, tt)
  Off-append x a k v ((b, j, w) ∷ cells) (ne', off) ne = (ne', Off-append x a k v cells off ne)

  pub Apart-append :
      (a k : ℕ) (v : V) (cells : List (Cell V))
      → Apart cells
      → Off a cells
      → Apart (cells ++ ((a, k, v) ∷ []))
  Apart-append a k v [] apart off = (tt, tt)
  Apart-append a k v ((b, j, w) ∷ cells) (off', apart) (ne, off) =
      (Off-append b a k v cells off' (λ e. ne (sym e)), Apart-append a k v cells apart off)

  module _ (node : ℕ → Node V) (a : ℕ) (n : Node V) where
    pub Nexts-update_at :
        (p : ℕ) (cells : List (Cell V)) (stop : ℕ)
        → p ≢ a
        → Off a cells
        → Nexts node p cells stop
        → Nexts (update_at a n node) p cells stop
    Nexts-update_at p [] stop ne off h = rw (==_ne p a ne) h
    Nexts-update_at p ((b, k, v) ∷ cells) stop ne (ne', off) (h, rest) =
        (rw (==_ne p a ne) h, Nexts-update_at b cells stop ne' off rest)

    pub Prevs-update_at :
        (p : ℕ) (cells : List (Cell V))
        → Off a cells
        → Prevs node p cells
        → Prevs (update_at a n node) p cells
    Prevs-update_at p [] off h = tt
    Prevs-update_at p ((b, k, v) ∷ cells) (ne, off) (h, rest) =
        (rw (==_ne b a ne) h, Prevs-update_at b cells off rest)

    pub Holds-update_at :
        (cells : List (Cell V)) → Off a cells → Holds node cells → Holds (update_at a n node) cells
    Holds-update_at [] off h = tt
    Holds-update_at ((b, k, v) ∷ cells) (ne, off) (key, h, rest) =
        (rw (==_ne b a ne) key, rw (==_ne b a ne) h, Holds-update_at cells off rest)

  module _ (node node' : ℕ → Node V) where
    pub Nexts-map :
        (p : ℕ) (cells : List (Cell V)) (stop : ℕ)
        → ((b : ℕ) → (node' b).next ≡ (node b).next)
        → Nexts node p cells stop
        → Nexts node' p cells stop
    Nexts-map p [] stop same h = same p ∙ h
    Nexts-map p ((b, k, v) ∷ cells) stop same (h, rest) =
        (same p ∙ h, Nexts-map b cells stop same rest)

    pub Prevs-map :
        (p : ℕ) (cells : List (Cell V))
        → ((b : ℕ) → (node' b).prev ≡ (node b).prev)
        → Prevs node p cells
        → Prevs node' p cells
    Prevs-map p [] same h = tt
    Prevs-map p ((b, k, v) ∷ cells) same (h, rest) = (same b ∙ h, Prevs-map b cells same rest)

    pub Holds-map :
        (cells : List (Cell V))
        → ((b : ℕ) → (node' b).key ≡ (node b).key)
        → ((b : ℕ) → (node' b).value ≡ (node b).value)
        → Holds node cells
        → Holds node' cells
    Holds-map [] same same' h = tt
    Holds-map ((b, k, v) ∷ cells) same same' (key, h, rest) =
        (same b ∙ key, same' b ∙ h, Holds-map cells same same' rest)

  -- A field that a change keeps.
  pub field-update_at {κ} :
      {A : Type κ} (field : Node V → A) (node : ℕ → Node V) (a : ℕ) (n : Node V)
      → field n ≡ field (node a)
      → (b : ℕ) → field (update_at a n node b) ≡ field (node b)
  field-update_at field node a n same b = elim (Bool-cases (b == a)) [
    | inl e ↦ let eq : a ≡ b = ground arith in rw e (same ∙ ap (λ x. field (node x)) eq)
    | inr e ↦ rw e refl
  ]

  -- The last node is led to another one.
  pub Nexts-set_next :
      (node : ℕ → Node V) (p : ℕ) (cells : List (Cell V)) (stop x : ℕ)
      → Off p cells
      → Apart cells
      → Nexts node p cells stop
      → Nexts (set_next (last p cells) x node) p cells x
  Nexts-set_next node p [] stop x off apart h = rw (==_self p) refl
  Nexts-set_next node p ((a, k, v) ∷ cells) stop x (ne, off) (off', apart) (h, rest) = (
    rw (==_ne p (last a cells) (λ e. last-Off p a cells ne off (sym e))) h,
    Nexts-set_next node a cells stop x off' apart rest,
  )

  pub Nexts-append :
      (node : ℕ → Node V) (p a k : ℕ) (v : V) (cells : List (Cell V)) (stop : ℕ)
      → Nexts node p cells a
      → (node a).next ≡ stop
      → Nexts node p (cells ++ ((a, k, v) ∷ [])) stop
  Nexts-append node p a k v [] stop h e = (h, e)
  Nexts-append node p a k v ((b, j, w) ∷ cells) stop (h, rest) e =
      (h, Nexts-append node b a k v cells stop rest e)

  pub Prevs-append :
      (node : ℕ → Node V) (p a k : ℕ) (v : V) (cells : List (Cell V))
      → Prevs node p cells
      → (node a).prev ≡ last p cells
      → Prevs node p (cells ++ ((a, k, v) ∷ []))
  Prevs-append node p a k v [] h e = (e, tt)
  Prevs-append node p a k v ((b, j, w) ∷ cells) (h, rest) e =
      (h, Prevs-append node b a k v cells rest e)

  pub Holds-append :
      (node : ℕ → Node V) (a k : ℕ) (v : V) (cells : List (Cell V))
      → Holds node cells
      → (node a).key ≡ k
      → (node a).value ≡ some v
      → Holds node (cells ++ ((a, k, v) ∷ []))
  Holds-append node a k v [] h key e = (key, e, tt)
  Holds-append node a k v ((b, j, w) ∷ cells) (key', h, rest) key e =
      (key', h, Holds-append node a k v cells rest key e)
