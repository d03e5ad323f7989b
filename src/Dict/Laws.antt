-- ===== src/Dict/Laws.antt =====
-- What the operations of a dict do to a look-up, and that they keep each key once.
use dbagent_tree.Prelude.{
  ◌≡◌, refl, ◌⊎◌, ◌||◌, true, none, some, [], ◌∷◌, arith, Eq, ◌==◌, if◌then◌else◌,
}
use dbagent_tree.Dict.{Dict, lookup, insert, erase, update, contains, or_else}

module _ {ℓ κ} {K : Type ℓ} {V : Type κ} ⦃e : Eq K⦄ where
  -- No key stands twice.
  abbrev pub IsDict : Dict K V → Type κ
  IsDict [] = Unit
  IsDict ((k, v) ∷ d) = (lookup k d ≡ none) × IsDict d

  pub lookup-insert :
      (j k : K) (v : V) (d : Dict K V)
      → lookup j (insert k v d) ≡ (if j == k then some v else lookup j d)
  unfolding lookup insert
  lookup-insert j k v [] = refl
  lookup-insert j k v ((i, w) ∷ d) =
      ground (arith, lookup-insert j k v d, e.same_iff j k, e.same_iff k i, e.same_iff j i)

  pub lookup-erase :
      (j k : K) (d : Dict K V) → lookup j (erase k d) ≡ (if j == k then none else lookup j d)
  unfolding lookup erase
  lookup-erase j k [] = ground arith
  lookup-erase j k ((i, w) ∷ d) =
      ground (arith, lookup-erase j k d, e.same_iff j k, e.same_iff k i, e.same_iff j i)

  pub insert-IsDict : (k : K) (v : V) (d : Dict K V) → IsDict d → IsDict (insert k v d)
  unfolding lookup insert
  insert-IsDict k v [] h = (refl, tt)
  insert-IsDict k v ((i, w) ∷ d) h =
      ground (arith, insert-IsDict k v d h.1, lookup-insert i k v d, e.same_iff i k, e.same_iff k i)

  pub erase-IsDict : (k : K) (d : Dict K V) → IsDict d → IsDict (erase k d)
  unfolding lookup erase
  erase-IsDict k [] h = tt
  erase-IsDict k ((i, w) ∷ d) h =
      ground (arith, erase-IsDict k d h.1, lookup-erase i k d, e.same_iff i k, e.same_iff k i)

  pub update-IsDict : (d new : Dict K V) → IsDict d → IsDict (update d new)
  unfolding update
  update-IsDict d [] h = h
  update-IsDict d ((k, v) ∷ new) h = update-IsDict (insert k v d) new (insert-IsDict k v d h)

  -- The new dict's entries win.
  pub lookup-update :
      (j : K) (d new : Dict K V)
      → IsDict new
      → lookup j (update d new) ≡ or_else (lookup j new) (lookup j d)
  unfolding lookup update
  lookup-update j d [] h = refl
  lookup-update j d ((k, v) ∷ new) h =
      ground (arith, lookup-update j (insert k v d) new h.1, lookup-insert j k v d, e.same_iff j k)

  pub contains-insert :
      (j k : K) (v : V) (d : Dict K V) → contains j (insert k v d) ≡ (j == k) || contains j d
  unfolding contains
  contains-insert j k v d = ground (arith, lookup-insert j k v d)

  -- A key that is in the dict has a value.
  pub contains-lookup :
      (k : K) (d : Dict K V) → contains k d ≡ true → (v : V) × (lookup k d ≡ some v)
  unfolding contains
  contains-lookup k d h = ground arith

  pub lookup-contains : (k : K) (v : V) (d : Dict K V) → lookup k d ≡ some v → contains k d ≡ true
  unfolding contains
  lookup-contains k v d h = ground arith

  -- An entry that is found after a write is the one written, or an old one.
  pub lookup-insert_cases :
      (j k : K) (v w : V) (d : Dict K V)
      → lookup j (insert k v d) ≡ some w
      → ((j ≡ k) × (w ≡ v)) ⊎ (lookup j d ≡ some w)
  lookup-insert_cases j k v w d h = ground (arith, lookup-insert j k v d, e.same_iff j k)

  pub lookup-erase_old :
      (j k : K) (w : V) (d : Dict K V) → lookup j (erase k d) ≡ some w → lookup j d ≡ some w
  lookup-erase_old j k w d h = ground (arith, lookup-erase j k d)

  pub lookup-erase_self : (k : K) (d : Dict K V) → lookup k (erase k d) ≡ none
  lookup-erase_self k d = rw (lookup-erase, (e.same_iff k k).1 refl)

  pub lookup-insert_self : (k : K) (v : V) (d : Dict K V) → lookup k (insert k v d) ≡ some v
  lookup-insert_self k v d = rw (lookup-insert, (e.same_iff k k).1 refl)
