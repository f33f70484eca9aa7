-- ===== src/Linked/Put.antt =====
-- `Put` of linkedmap.go, for every key.
use qotp.Base.{ℕ, ◌≡◌, sym, ap, ◌∙◌, some, ◌∷◌, ◌++◌, Option-cases, inl, inr}
use qotp.Entries
use qotp.Entries.{Entries}
use qotp.Linked.{LinkedMap, put}
use qotp.Linked.Chain.{entries, address}
use qotp.Linked.Refinement.{Represents, put_absent}
use qotp.Linked.Rename.{found-split, address-front, put-split}
use qotp.Linked.Replace.{revalued-Chained}

module _ {ℓ} {V : Type ℓ} where
  put_present :
      (m : LinkedMap V) (es : Entries V) (k a : ℕ) (v : V) (r : Represents m es)
      → address k r.cells ≡ some a
      → Represents (put k v m) (Entries.put k v es)
  unfolding put
  put_present m es k a v r found =
      let (lo, u, hi, eq, free) = found-split k a r.cells found r.chained.keys in
      rw (r.chained.items k, found)
        (record {
          cells = lo ++ ((a, k, v) ∷ hi);
          chained = revalued-Chained m a k u v lo hi (rw eq at r.chained) free;
          same =
              sym (put-split a k u v hi lo (address-front k lo hi free))
              ∙ ap (λ cells. Entries.put k v (entries cells)) (sym eq)
              ∙ ap (Entries.put k v) r.same;
        })

  -- `Put`: the pointers then hold the entries that the contract says. A new key is at their end,
  -- and a key that was there has the value in its place.
  pub put-Represents :
      (m : LinkedMap V) (es : Entries V) (k : ℕ) (v : V)
      → Represents m es
      → Represents (put k v m) (Entries.put k v es)
  put-Represents m es k v r = elim (Option-cases (address k r.cells)) [
    | inl absent ↦ put_absent m es k v r absent
    | inr (a, found) ↦ put_present m es k a v r found
  ]
