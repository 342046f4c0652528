-- ===== src/Dictionary/Sound.antt =====
-- What holds of the whole encoder, and that a new value keeps it.
use parquet_cpp.Common.{
  ℕ, suc, ◌+◌, ◌-◌, ◌*◌, ◌%◌, ◌^◌, ◌≤◌, ◌<◌, ◌≡◌, inl, inr, refl, ap, ◌∙◌, subst, arith, Bool,
  Option, none, some, [], ◌∷◌, ◌++◌, length, length-append, set, All, All-append, ltb→lt, ltb→ge,
  Bool-cases,
}
use native.Mathlib.Nat.{pow-suc}
use parquet_cpp.Dictionary.{DictEncoder, add_dict_key, is_loaded, insert, buffer_index}
use parquet_cpp.Dictionary.Slots.{RefersBelow, All-map}
use parquet_cpp.Dictionary.Table.{IsTable, set-IsTable, double_table_size-Doubles}

-- A well-formed encoder: a table of a power of two, at most seven tenths full, whose slots and whose
-- buffered indices refer to values.
pub record IsSound {ℓ} {A : Type ℓ} (value_size : ℕ) (d : DictEncoder A) : Type ℓ where
  pub exponent : ℕ
  pub power : d.hash_table_size ≡ 2 ^ exponent
  pub large : 2 ≤ d.hash_table_size
  pub mask : d.mod_bitmask ≡ d.hash_table_size - 1
  pub table : IsTable d.hash_table_size (length d.uniques) (length d.uniques) d.hash_slots
  pub light : 10 * length d.uniques ≤ 7 * d.hash_table_size
  pub indices : All (λ i. i < length d.uniques) d.buffered_indices
  pub encoded : d.dict_encoded_size ≡ length d.uniques * value_size % 2 ^ 32

RefersBelow-suc : (n : ℕ) (o : Option ℕ) → RefersBelow n o → RefersBelow (suc n) o
RefersBelow-suc n none h = tt
RefersBelow-suc n (some i) h = omega (arith, h)

wrapped :
    (n value_size : ℕ)
    → (n * value_size % 2 ^ 32 + value_size) % 2 ^ 32 ≡ suc n * value_size % 2 ^ 32
wrapped n value_size =
    mod_add (n * value_size) value_size ∙ ap (λ (m : ℕ). m % 2 ^ 32) (omega arith)
  where
    mod_add : (a b : ℕ) → (a % 2 ^ 32 + b) % 2 ^ 32 ≡ (b + a) % 2 ^ 32
    mod_add a b = omega arith

module _ {ℓ} {A : Type ℓ} (differs : A → A → Bool) where
  module _ (hash : A → ℕ) (value_size : ℕ) where
    pub buffer_index-IsSound :
        (index : ℕ) (d : DictEncoder A)
        → IsSound value_size d
        → index < length d.uniques
        → IsSound value_size (buffer_index differs hash value_size index d)
    buffer_index-IsSound index d s below = record {
      exponent = s.exponent;
      power = s.power;
      large = s.large;
      mask = s.mask;
      table = s.table;
      light = s.light;
      indices =
          All-append (λ i. i < length d.uniques) d.buffered_indices (index ∷ []) s.indices
            (below, tt);
      encoded = s.encoded;
    }

    -- The table with the new index, before it is doubled.
    pub added-IsTable :
        (j : ℕ) (v : A) (d : DictEncoder A)
        → IsSound value_size d
        → IsTable d.hash_table_size
            (length (d.uniques ++ v ∷ []))
            (length (d.uniques ++ v ∷ []))
            (set d.hash_slots j (some (length d.uniques)))
    added-IsTable j v d s =
        let n = length d.uniques in
        let one : suc n ≡ length (d.uniques ++ v ∷ []) =
          omega (arith, length-append d.uniques (v ∷ [])) in
        let wider =
          All-map (RefersBelow n) (RefersBelow (suc n)) (RefersBelow-suc n) d.hash_slots
            s.table.refer in
        subst (λ (m : ℕ). IsTable d.hash_table_size m m (set d.hash_slots j (some n))) one
          (set-IsTable d.hash_table_size (suc n) n j n d.hash_slots
            (record { fits = s.table.fits; few = s.table.few; refer = wider }) (omega arith))

    -- A new value, whose slot is `j`.
    pub record Inserts (v : A) (d : DictEncoder A) (result : Option (DictEncoder A)) : Type ℓ where
      pub next : DictEncoder A
      pub returns : result ≡ some next
      pub sound : IsSound value_size next
      pub values : next.uniques ≡ d.uniques ++ v ∷ []
      pub buffered : next.buffered_indices ≡ d.buffered_indices

    pub insert-Inserts :
        (j : ℕ) (v : A) (d : DictEncoder A)
        → IsSound value_size d
        → 10 * suc (length d.uniques) ≤ 7 * 2 ^ 30
        → Inserts v d (insert differs hash value_size j v d)
    unfolding insert
    insert-Inserts j v d s in_int =
        let n = length d.uniques in
        let slots = set d.hash_slots j (some n) in
        let more = add_dict_key differs hash value_size v (record d { hash_slots = slots }) in
        let one : length more.uniques ≡ suc n = length-append d.uniques (v ∷ []) ∙ omega arith in
        let table = added-IsTable j v d s in
        let indices : All (λ i. i < length more.uniques) d.buffered_indices =
          All-map (λ i. i < n) (λ i. i < length more.uniques) (λ i h. omega (arith, h, one))
            d.buffered_indices s.indices in
        let encoded : more.dict_encoded_size ≡ length more.uniques * value_size % 2 ^ 32 =
          rw (one, s.encoded) (wrapped n value_size) in
        elim (Bool-cases (is_loaded differs hash value_size more)) [
          | inl loaded ↦
              let q =
                double_table_size-Doubles differs hash s.exponent more s.power table
                  (omega (arith, one, s.light, s.large))
                  (omega (arith, one, in_int, ltb→lt _ _ loaded)) in
              record {
                next = record more {
                  hash_table_size = d.hash_table_size * 2;
                  mod_bitmask = d.hash_table_size * 2 - 1;
                  hash_slots = q.slots;
                };
                returns = rw (loaded, q.returns) refl;
                sound = record {
                  exponent = suc s.exponent;
                  power = omega (arith, s.power, pow-suc 2 s.exponent);
                  large = omega (arith, s.large);
                  mask = refl;
                  table = record {
                    fits = q.table.fits;
                    few = omega (arith, q.table.few, table.few);
                    refer = q.table.refer;
                  };
                  light = omega (arith, one, s.light, s.large);
                  indices = indices;
                  encoded = encoded;
                };
                values = refl;
                buffered = refl;
              }
          | inr room ↦ record {
            next = more;
            returns = rw room refl;
            sound = record {
              exponent = s.exponent;
              power = s.power;
              large = s.large;
              mask = s.mask;
              table = table;
              light = ltb→ge _ _ room;
              indices = indices;
              encoded = encoded;
            };
            values = refl;
            buffered = refl;
          }
        ]
