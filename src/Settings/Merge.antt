-- ===== src/Settings/Merge.antt =====
-- _deep_merge of src/config/settings.py: the file of a broker over the common one. A value of a file is
-- a mapping or something else, which is replaced whole.
use bobis_quote_mt5_trading.Prelude.{
  String, if◌then◌else◌, Option, none, some, ◌==◌, Eq_string, ◌≡◌, refl, arith, sym, ◌∙◌, ap,
  Bool-cases, inl, inr,
}

mutual
  pub data Yaml (A : Type 0) : Type 0 where
    leaf : A → Yaml A
    mapping : Entries A → Yaml A

  pub data Entries (A : Type 0) : Type 0 where
    end : Entries A
    entry : String → Yaml A → Entries A → Entries A

module _ {A : Type 0} where
  unfoldable pub get : String → Entries A → Option (Yaml A)
  get k end = none
  get k (entry j v rest) = let later = get k rest in if j == k then some v else later

  unfoldable pub put : String → Yaml A → Entries A → Entries A
  put k v end = entry k v end
  put k v (entry j w rest) =
      let later = put k v rest in if j == k then entry j v rest else entry j w later

unfoldable mutual
  -- What becomes of a key with the value that the result has, if any, and the one of the override.
  pub merge_value : {A : Type 0} → Option (Yaml A) → Yaml A → Yaml A
  merge_value old (leaf a) = leaf a
  merge_value none (mapping over) = mapping over
  merge_value (some (leaf a)) (mapping over) = mapping over
  merge_value (some (mapping base)) (mapping over) = mapping (deep_merge base over)

  pub deep_merge : {A : Type 0} → Entries A → Entries A → Entries A
  deep_merge base end = base
  deep_merge base (entry k v rest) = deep_merge (put k (merge_value (get k base) v) base) rest

module _ {A : Type 0} where
  -- The keys of a mapping are different.
  abbrev pub HasKeys : Entries A → Type 0
  HasKeys end = Unit
  HasKeys (entry k v rest) = (get k rest ≡ none) × HasKeys rest

  -- The value of a key in the merge, from those in the two files.
  abbrev pub merged : (base over : Option (Yaml A)) → Option (Yaml A)
  merged base none = base
  merged (some (mapping b)) (some (mapping o)) = some (mapping (deep_merge b o))
  merged base (some v) = some v

  merged-merge_value :
      (base : Option (Yaml A)) (v : Yaml A) → merged base (some v) ≡ some (merge_value base v)
  unfolding merge_value
  merged-merge_value none (leaf a) = refl
  merged-merge_value none (mapping o) = refl
  merged-merge_value (some (leaf b)) (leaf a) = refl
  merged-merge_value (some (leaf b)) (mapping o) = refl
  merged-merge_value (some (mapping b)) (leaf a) = refl
  merged-merge_value (some (mapping b)) (mapping o) = refl

  get-put :
      (k j : String) (v : Yaml A) (d : Entries A)
      → get j (put k v d) ≡ (if k == j then some v else get j d)
  unfolding get put
  get-put k j v end = refl
  get-put k j v (entry i w d) =
      ground (
        arith,
        Eq_string.beq_iff k j,
        Eq_string.beq_iff i k,
        Eq_string.beq_iff i j,
        get-put k j v d,
      )

  one_step :
      (k j : String) (v : Yaml A) (base rest : Entries A)
      → get j rest ≡ none
      → merged (if j == k then some (merge_value (get j base) v) else get k base) (get k rest)
        ≡ merged (get k base) (if j == k then some v else get k rest)
  one_step k j v base rest h = elim (Bool-cases (j == k)) [
    | inl same ↦
        let e = (Eq_string.beq_iff j k).0 same in
        rw same (rw (sym e) (rw h (sym (merged-merge_value (get j base) v))))
    | inr other ↦ rw other refl
  ]

  -- Where the keys of the override are different, every key of the merge has what the override has there,
  -- or the base where the override has nothing; where both have mappings, it has the merge of these.
  pub get-deep_merge :
      (k : String) (base over : Entries A)
      → HasKeys over
      → get k (deep_merge base over) ≡ merged (get k base) (get k over)
  unfolding deep_merge get
  get-deep_merge k base end h = refl
  get-deep_merge k base (entry j v rest) h =
      let ih = get-deep_merge k (put j (merge_value (get j base) v) base) rest h.1 in
      ih ∙ ap (λ x. merged x (get k rest)) (get-put j k _ base) ∙ one_step k j v base rest h.0
