-- ===== src/Dictionary/Decoder/Decodes.antt =====
-- `GetBatchWithDict` looks up the indices that the runs stand for.
use parquet_cpp.Common.{
  ℕ, zero, suc, ◌+◌, ◌-◌, ◌≤◌, ◌<◌, ◌≡◌, refl, ◌∙◌, ap, sym, subst, true, some, List, [], ◌∷◌, ◌++◌,
  length, length-append, get_elem?, take, replicate, lt→ltb, arith,
}
use parquet_cpp.Rle.Decoder.{Decoder, batch_step}
use parquet_cpp.Rle.Format.{Run}
use parquet_cpp.Rle.Denotes.{Denotes}
use parquet_cpp.Rle.Decodes.{runs_fit}
use parquet_cpp.Rle.Passes.{batch_step_lem}
use parquet_cpp.Dictionary.Decoder.{
  lookup, dict_batch, kept_indices, dict_loop, get_batch_with_dict,
}

module _ {ℓ} {A : Type ℓ} where
  -- Indices that a dictionary has, and their values.
  pub data LooksUp (dict : List A) : List ℕ → List A → Type ℓ where
    no_index : LooksUp dict [] []
    index_of :
        {i : ℕ} {is : List ℕ} {u : A} {us : List A}
        → get_elem? dict i ≡ some u
        → LooksUp dict is us
        → LooksUp dict (i ∷ is) (u ∷ us)

  pub LooksUp-lookup :
      (dict : List A) (is : List ℕ) (us : List A) → LooksUp dict is us → lookup dict is ≡ some us
  unfolding lookup
  LooksUp-lookup dict _ _ no_index = refl
  LooksUp-lookup dict _ _ (index_of {is} {us} read h) =
      rw (lookup, read, LooksUp-lookup dict is us h) refl

  pub LooksUp-length :
      (dict : List A) (is : List ℕ) (us : List A) → LooksUp dict is us → length us ≡ length is
  LooksUp-length dict _ _ no_index = refl
  LooksUp-length dict _ _ (index_of {is} {us} read h) = ap suc (LooksUp-length dict is us h)

  pub LooksUp-append :
      (dict : List A) (is js : List ℕ) (us ws : List A)
      → LooksUp dict is us
      → LooksUp dict js ws
      → LooksUp dict (is ++ js) (us ++ ws)
  LooksUp-append dict _ js _ ws no_index k = k
  LooksUp-append dict _ js _ ws (index_of {is} {us} read h) k =
      index_of read (LooksUp-append dict is js us ws h k)

  pub LooksUp-replicate :
      (dict : List A) (n i : ℕ) (u : A)
      → get_elem? dict i ≡ some u
      → LooksUp dict (replicate n i) (replicate n u)
  LooksUp-replicate dict zero i u read = no_index
  LooksUp-replicate dict (suc n) i u read = index_of read (LooksUp-replicate dict n i u read)

  -- The values of an append are those of its parts.
  record Splits (dict : List A) (is js : List ℕ) (us : List A) : Type ℓ where
    here : List A
    behind : List A
    at_here : LooksUp dict is here
    at_behind : LooksUp dict js behind
    whole : us ≡ here ++ behind

  LooksUp-Splits :
      (dict : List A) (is js : List ℕ) (us : List A)
      → LooksUp dict (is ++ js) us
      → Splits dict is js us
  LooksUp-Splits dict [] js us h = record {
    here = [];
    behind = us;
    at_here = no_index;
    at_behind = h;
    whole = refl;
  }
  LooksUp-Splits dict (i ∷ is) js _ (index_of {u} {us} read h) =
      let s = LooksUp-Splits dict is js us h in
      record {
        here = u ∷ s.here;
        behind = s.behind;
        at_here = index_of read s.at_here;
        at_behind = s.at_behind;
        whole = ap (λ t. u ∷ t) s.whole;
      }

  take-beyond :
      (n : ℕ) (xs ys : List A) → length xs ≤ n → take n (xs ++ ys) ≡ xs ++ take (n - length xs) ys
  take-beyond n [] ys h = ap (λ (k : ℕ). take k ys) (omega arith)
  take-beyond zero (x ∷ xs) ys h = absurd (omega arith)
  take-beyond (suc n) (x ∷ xs) ys h =
      ap (λ t. x ∷ t)
        (take-beyond n xs ys (omega arith) ∙ ap (λ (k : ℕ). xs ++ take k ys) (omega arith))

  take-whole :
      (n : ℕ) (all xs ys : List A)
      → all ≡ xs ++ ys
      → length xs ≤ n
      → take n all ≡ xs ++ take (n - length xs) ys
  take-whole n all xs ys e h = ap (take n) e ∙ take-beyond n xs ys h

  loop_passes :
      (fuel : ℕ) (dict : List A) (left : ℕ) (indices is : List ℕ) (us ws all : List A)
      (d next end : Decoder)
      → all ≡ us ++ ws
      → 0 < left
      → batch_step true (dict_batch left d) indices d ≡ some (is, (next, true))
      → lookup dict is ≡ some us
      → dict_loop fuel dict (left - length us) (kept_indices d is indices) next ≡ some (ws, end)
      → dict_loop (suc fuel) dict left indices d ≡ some (all, end)
  unfolding dict_loop
  loop_passes fuel dict left indices is us ws all d next end whole more step look rest =
      rw (lt→ltb 0 left more, dict_loop, step, look, rest) (ap (λ t. some (t, end)) (sym whole))

  loop_stops :
      (fuel : ℕ) (dict : List A) (indices : List ℕ) (d : Decoder)
      → dict_loop fuel dict 0 indices d ≡ some ([], d)
  unfolding dict_loop
  loop_stops zero dict indices d = refl
  loop_stops (suc fuel) dict indices d = refl

  dict_loop_lem :
      (fuel : ℕ) (dict : List A) (left : ℕ) (indices : List ℕ) (d : Decoder) (runs : List Run)
      (vs : List ℕ) (us : List A)
      → Denotes d runs vs
      → LooksUp dict vs us
      → left ≤ length vs
      → left + length runs ≤ fuel
      → (end : Decoder) × (dict_loop fuel dict left indices d ≡ some (take left us, end))
  dict_loop_lem fuel dict zero indices d runs vs us h look enough fueled =
      (d, loop_stops fuel dict indices d)
  dict_loop_lem zero dict (suc left) indices d runs vs us h look enough fueled =
      absurd (omega arith)
  dict_loop_lem (suc fuel) dict (suc left) indices d runs vs us h look enough fueled =
      let batch = dict_batch (suc left) d in
      let fits : (0 < batch) × (batch ≤ suc left) = ground arith in
      let s =
        batch_step_lem true batch indices d runs vs h fits.0 (omega (arith, fits.1, enough)) in
      let p =
        LooksUp-Splits dict s.out s.gives.rest us
          (subst (λ l. LooksUp dict l us) s.gives.split look) in
      let len = LooksUp-length dict s.out p.here p.at_here in
      let sizes = ap length s.gives.split ∙ length-append s.out s.gives.rest in
      let (end, rest) =
        dict_loop_lem fuel dict (suc left - length p.here) (kept_indices d s.out indices) s.next
          s.after s.gives.rest p.behind s.gives.denotes p.at_behind
          (omega (arith, sizes, s.at_most, len, fits.1, enough))
          (omega (arith, s.smaller, s.at_most, len, fits.1, fueled)) in
      (
        end,
        loop_passes fuel dict (suc left) indices s.out p.here
            (take (suc left - length p.here) p.behind) (take (suc left) us) d s.next end
            (take-whole (suc left) us p.here p.behind p.whole
              (omega (arith, len, s.at_most, fits.1)))
            (omega arith) s.returns (LooksUp-lookup dict s.out p.here p.at_here) rest,
      )

  pub get_batch_with_dict_lem :
      (dict : List A) (n : ℕ) (indices : List ℕ) (d : Decoder) (runs : List Run) (vs : List ℕ)
      (us : List A)
      → Denotes d runs vs
      → LooksUp dict vs us
      → n ≤ length vs
      → (end : Decoder) × (get_batch_with_dict dict n indices d ≡ some (take n us, end))
  unfolding get_batch_with_dict
  get_batch_with_dict_lem dict n indices d runs vs us h look enough =
      dict_loop_lem (n + suc d.bit_reader.max_bytes) dict n indices d runs vs us h look enough
        (omega (arith, runs_fit h))
