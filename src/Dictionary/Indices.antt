-- ===== src/Dictionary/Indices.antt =====
-- The buffered indices stand for the values put, and they go through the RLE encoding.
use parquet_cpp.Common.{
  ℕ, zero, suc, ◌+◌, ◌*◌, ◌^◌, ◌≤◌, ◌<◌, ◌≡◌, ◌⊎◌, inl, inr, refl, ◌∙◌, sym, ap, subst, arith, Bool,
  false, some, List, [], ◌∷◌, ◌++◌, length, length-append, get_elem?,
}
use native.Mathlib.Nat.{mod-eq_of_lt, mul-le-mul_right}
use mathlib.Core.List.{append_assoc, append-nil}
use parquet_cpp.Dictionary.{DictEncoder, make, put_all}
use parquet_cpp.Dictionary.Table.{empty-IsTable}
use parquet_cpp.Dictionary.Sound.{IsSound}
use parquet_cpp.Dictionary.Put.{Stands, Puts, put-Puts}
use parquet_cpp.Dictionary.Decoder.Decodes.{LooksUp, no_index, index_of}

module _ {ℓ} {A : Type ℓ} where
  -- A read that succeeds also succeeds in a longer dictionary.
  get_elem?-longer :
      (dict more : List A) (i : ℕ) (u : A)
      → get_elem? dict i ≡ some u
      → get_elem? (dict ++ more) i ≡ some u
  get_elem?-longer [] more i u h = absurd (grind arith)
  get_elem?-longer (x ∷ dict) more zero u h = h
  get_elem?-longer (x ∷ dict) more (suc i) u h = get_elem?-longer dict more i u h

  pub make-IsSound : (value_size : ℕ) → IsSound value_size (make {A = A})
  unfolding make
  make-IsSound value_size = record {
    exponent = 10;
    power = refl;
    large = omega arith;
    mask = refl;
    table = empty-IsTable 1024 0;
    light = omega arith;
    indices = tt;
    encoded = omega arith;
  }

module _ {ℓ} {A : Type ℓ} (differs : A → A → Bool) where
  -- Indices that stand for values, one by one.
  pub data AllStand (dict : List A) : List ℕ → List A → Type ℓ where
    no_values : AllStand dict [] []
    one_more :
        {i : ℕ} {is : List ℕ} {v u : A} {vs : List A}
        → get_elem? dict i ≡ some u
        → Stands differs v u
        → AllStand dict is vs
        → AllStand dict (i ∷ is) (v ∷ vs)

  AllStand-longer :
      (dict more : List A) (is : List ℕ) (vs : List A)
      → AllStand dict is vs
      → AllStand (dict ++ more) is vs
  AllStand-longer dict more _ _ no_values = no_values
  AllStand-longer dict more _ _ (one_more {i} {is} {v} {u} {vs} read stands h) =
      one_more (get_elem?-longer dict more i u read) stands (AllStand-longer dict more is vs h)

  AllStand-snoc :
      (dict : List A) (is : List ℕ) (vs : List A) (i : ℕ) (v u : A)
      → AllStand dict is vs
      → get_elem? dict i ≡ some u
      → Stands differs v u
      → AllStand dict (is ++ i ∷ []) (vs ++ v ∷ [])
  AllStand-snoc dict _ _ i v u no_values read stands = one_more read stands no_values
  AllStand-snoc dict _ _ i v u (one_more {is} {vs} first kept h) read stands =
      one_more first kept (AllStand-snoc dict is vs i v u h read stands)

  -- When `differs` is false of equal values only, they are the values.
  pub AllStand-LooksUp :
      ((v u : A) → differs v u ≡ false → u ≡ v)
      → (dict : List A) (is : List ℕ) (vs : List A) → AllStand dict is vs
      → LooksUp dict is vs
  AllStand-LooksUp same dict _ _ no_values = no_index
  AllStand-LooksUp same dict _ _ (one_more {is} {v} {u} {vs} read stands h) =
      index_of (read ∙ ap some (equal stands)) (AllStand-LooksUp same dict is vs h)
    where
      equal : Stands differs v u → u ≡ v
      equal (inl e) = e
      equal (inr e) = same v u e

  module _ (hash : A → ℕ) (value_size : ℕ) where
    put-stand :
        (v : A) (vs : List A) (d next : DictEncoder A)
        → Puts differs value_size v d next
        → AllStand d.uniques d.buffered_indices vs
        → AllStand next.uniques next.buffered_indices (vs ++ v ∷ [])
    put-stand v vs d next p h =
        subst (λ is. AllStand next.uniques is (vs ++ v ∷ [])) (sym p.buffered)
          (AllStand-snoc next.uniques d.buffered_indices vs p.index v p.value (kept p.added) p.read
            p.stands)
      where
        kept :
            (next.uniques ≡ d.uniques) ⊎ (next.uniques ≡ d.uniques ++ v ∷ [])
            → AllStand next.uniques d.buffered_indices vs
        kept (inl e) = subst (λ us. AllStand us d.buffered_indices vs) (sym e) h
        kept (inr e) =
            subst (λ us. AllStand us d.buffered_indices vs) (sym e)
              (AllStand-longer d.uniques (v ∷ []) d.buffered_indices vs h)

    pub put-room :
        (v : A) (d next : DictEncoder A)
        → Puts differs value_size v d next
        → length next.uniques ≤ suc (length d.uniques)
    put-room v d next p = elim p.added [
      | inl e ↦ omega (arith, ap length e)
      | inr e ↦ omega (arith, ap length e, length-append d.uniques (v ∷ []))
    ]

    pub record Result (before vs : List A) (d : DictEncoder A) : Type ℓ where
      pub takes : (next : DictEncoder A) × (put_all differs hash value_size vs d ≡ some next)
      pub sound : IsSound value_size takes.0
      pub stand : AllStand takes.0.uniques takes.0.buffered_indices (before ++ vs)
      pub room : length takes.0.uniques ≤ length d.uniques + length vs

    pub put_all-Result :
        (vs before : List A) (d : DictEncoder A)
        → IsSound value_size d
        → AllStand d.uniques d.buffered_indices before
        → 10 * (length d.uniques + length vs) ≤ 7 * 2 ^ 30
        → Result before vs d
    unfolding put_all
    put_all-Result [] before d s h few = record {
      takes = (d, refl);
      sound = s;
      stand = subst (AllStand d.uniques d.buffered_indices) (sym (append-nil before)) h;
      room = omega arith;
    }
    put_all-Result (v ∷ vs) before d s h few =
        let (next, e, p) = put-Puts differs hash value_size v d s (omega (arith, few)) in
        let rest =
          put_all-Result vs (before ++ v ∷ []) next p.sound (put-stand v before d next p h)
            (omega (arith, few, put-room v d next p)) in
        record {
          takes = (rest.takes.0, rw (put_all, e) rest.takes.1);
          sound = rest.sound;
          stand =
              subst (AllStand rest.takes.0.uniques rest.takes.0.buffered_indices)
                (append_assoc before (v ∷ []) vs) rest.stand;
          room = omega (arith, rest.room, put-room v d next p);
        }

    -- From a well-formed encoder whose indices stand for the values `before`, where the values that it
    -- has and those to put are at most 0.7 * 2 ^ 30 and together have fewer than 2 ^ 31 bytes, `Put` of
    -- each of `vs` returns: no loop runs on, no index is out of range, and neither the size of the
    -- table nor the count of bytes overflows its `int`. The encoder is well formed after it (a table of
    -- a power of two, at most seven tenths full), its indices stand for `before` and then `vs`, one by
    -- one, each for the value put or one that `differs` does not tell from it, and
    -- `dict_encoded_size` is the number of bytes of the dictionary.
    pub put_all-terminates :
        (vs before : List A) (d : DictEncoder A)
        → IsSound value_size d
        → AllStand d.uniques d.buffered_indices before
        → 10 * (length d.uniques + length vs) ≤ 7 * 2 ^ 30
        → (length d.uniques + length vs) * value_size < 2 ^ 31
        → (next : DictEncoder A) × (put_all differs hash value_size vs d ≡ some next)
          × IsSound value_size next
          × AllStand next.uniques next.buffered_indices (before ++ vs)
          × (length next.uniques ≤ length d.uniques + length vs)
          × (next.dict_encoded_size ≡ length next.uniques * value_size)
    put_all-terminates vs before d s h few in_int =
        let r = put_all-Result vs before d s h few in
        let small : length r.takes.0.uniques * value_size < 2 ^ 32 =
          omega (arith, in_int, mul-le-mul_right value_size r.room) in
        (r.takes.0, r.takes.1, r.sound, r.stand, r.room, r.sound.encoded ∙ mod-eq_of_lt small)
