-- ===== src/Tools/Json.antt =====
-- Python values as `json` makes them: arguments and results of tools. `F` stands for `float`.
use dbagent_tree.Prelude.{
  String, Bool, Option, none, some, List, [], ◌∷◌, ℤ, string_eq, ◌==◌, if◌then◌else◌,
}

mutual
  pub data Json (F : Type 0) : Type 0 where
    null : Json F
    bool : Bool → Json F
    int : ℤ → Json F
    float : F → Json F
    str : String → Json F
    array : Items F → Json F
    object : Fields F → Json F

  pub data Items (F : Type 0) : Type 0 where
    nil : Items F
    cons : Json F → Items F → Items F

  pub data Fields (F : Type 0) : Type 0 where
    end : Fields F
    field : String → Json F → Fields F → Fields F

module _ {F : Type 0} where
  -- `d.get(k)`
  unfoldable pub field? : String → Fields F → Option (Json F)
  field? k end = none
  field? k (field j v fs) = if k == j then some v else field? k fs

  -- `d.get(k, default)`
  unfoldable pub field_or : String → Json F → Fields F → Json F
  field_or k default fs = elim (field? k fs) [ none ↦ default | some v ↦ v ]

  -- `d[k] = v`
  unfoldable pub set_field : String → Json F → Fields F → Fields F
  set_field k v end = field k v end
  set_field k v (field j w fs) = if k == j then field j v fs else field j w (set_field k v fs)

  -- A dict from its entries.
  abbrev pub fields : List (String × Json F) → Fields F
  fields [] = end
  fields ((k, v) ∷ kvs) = field k v (fields kvs)

  -- `d.update(new)`
  unfoldable pub update_fields : Fields F → List (String × Json F) → Fields F
  unfolding set_field
  update_fields d [] = d
  update_fields d ((k, v) ∷ new) = update_fields (set_field k v d) new

  abbrev pub items : List (Json F) → Items F
  items [] = nil
  items (x ∷ xs) = cons x (items xs)

  abbrev pub to_list : Items F → List (Json F)
  to_list nil = []
  to_list (cons x xs) = x ∷ to_list xs
