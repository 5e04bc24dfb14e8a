-- ===== src/Tools/Adsb/Ends.antt =====
-- The loop of `manchester` ends.
use rtlsdrwrapper.Base.{
  ℕ, zero, suc, ◌+◌, ◌-◌, ◌/◌, ◌<◌, ◌≤◌, min, ◌≡◌, refl, ◌∙◌, List, some, arith,
}
use rtlsdrwrapper.Base.{
  ltb, ◌==◌, if◌then◌else◌, if_ind, Bool-cases, inl, inr, length, length-set, length-blit, set,
  get_or,
}
use rtlsdrwrapper.Tools.Adsb.{
  Scan, badsample, single_manchester, preamble_len, preamble, find_preamble, store_bit, overwrite,
  mark_bits, manchester_round, manchester_loop, manchester,
}

-- The search does not go back, and where indices are left it goes on.
find_preamble-moves :
    (n : ℕ) (s : Scan)
    → (s.i + min n 1 ≤ (find_preamble n s).i) × (length (find_preamble n s).buf ≡ length s.buf)
unfolding find_preamble
find_preamble-moves zero s = (omega arith, refl)
find_preamble-moves (suc n) s =
    if_ind (λ (t : Scan). (s.i + min (suc n) 1 ≤ t.i) × (length t.buf ≡ length s.buf))
      (preamble s.buf s.i) _ _ (λ e. (omega arith, length-blit s.buf s.i _))
      (λ e. let h = find_preamble-moves n (record s { i = s.i + 1 }) in (omega (arith, h.0), h.1))

pub length-store_bit : (buf : List ℕ) (i i2 bit : ℕ) → length (store_bit buf i i2 bit) ≡ length buf
length-store_bit buf i i2 bit =
    length-set (set (set buf (i + 1) overwrite) i overwrite) i2 bit
    ∙ length-set (set buf (i + 1) overwrite) i overwrite
    ∙ length-set buf (i + 1) overwrite

-- A round that is not the last error goes on by two samples.
abbrev steps : ℕ → ℕ → ℕ → ℕ
steps allowed_errors n errors = if ltb errors allowed_errors then min n 1 else 0

module _ (quality allowed_errors : ℕ) where
  pub mark_bits-moves :
      (n i2 errors : ℕ) (s : Scan)
      → (s.i + steps allowed_errors n errors ≤ (mark_bits quality allowed_errors n i2 errors s).i)
        × (length (mark_bits quality allowed_errors n i2 errors s).buf ≡ length s.buf)
  unfolding mark_bits
  mark_bits-moves zero i2 errors s = (ground arith, refl)
  mark_bits-moves (suc n) i2 errors s =
      if_ind Moved (bit == badsample) _ _
        (λ e.
          if_ind Moved (ltb allowed_errors (errors + 1)) _ _
            (λ f. (ground arith, length-set s.buf i2 badsample))
            (λ f.
              let h = mark_bits-moves n (i2 + 1) (errors + 1) _ in
              (ground (arith, h.0), h.1 ∙ length-store_bit s.buf s.i i2 _)))
        (λ e.
          let h = mark_bits-moves n (i2 + 1) errors _ in
          (ground (arith, h.0), h.1 ∙ length-store_bit s.buf s.i i2 _))
    where
      bit : ℕ
      bit = single_manchester quality s.a s.b (get_or s.buf s.i 0) (get_or s.buf (s.i + 1) 0)

      Moved : Scan → Type 0
      Moved t = (s.i + steps allowed_errors (suc n) errors ≤ t.i) × (length t.buf ≡ length s.buf)

  manchester_round-moves :
      (len : ℕ) (s : Scan)
      → 1 ≤ allowed_errors
      → (s.i < len - 1 → s.i < (manchester_round quality allowed_errors len s).i)
        × (length (manchester_round quality allowed_errors len s).buf ≡ length s.buf)
  unfolding manchester_round
  manchester_round-moves len s h =
      let n = len - preamble_len - s.i in
      let f = find_preamble-moves n s in
      let m =
        mark_bits-moves ((len - 1 - (find_preamble n s).i + 1) / 2) (find_preamble n s).i 0
          (find_preamble n s) in
      (λ k. ground (arith, f.0, m.0), m.1 ∙ f.1)

  loop_ends :
      (fuel len : ℕ) (s : Scan)
      → 1 ≤ allowed_errors
      → len ≤ s.i + fuel
      → 0 < fuel
      → (buf : List ℕ) × (manchester_loop quality allowed_errors fuel len s ≡ some buf)
        × (length buf ≡ length s.buf)
  unfolding manchester_loop
  loop_ends zero len s h k l = absurd (omega arith)
  loop_ends (suc fuel) len s h k l = elim (Bool-cases (ltb s.i (len - 1))) [
    | inl e ↦
        let t = manchester_round quality allowed_errors len s in
        let moved = manchester_round-moves len s h in
        let on : s.i < t.i = moved.0 (ground arith) in
        let (buf, r, same) = loop_ends fuel len t h (omega arith) (ground arith) in
        rw e (buf, r, same ∙ moved.1)
    | inr e ↦ rw e (s.buf, refl, refl)
  ]

  -- Where at least one error is allowed, more rounds than samples are enough: the loop of `manchester`
  -- ends, and the buffer keeps its length.
  pub manchester_ends :
      (fuel : ℕ) (buf : List ℕ)
      → 1 ≤ allowed_errors
      → length buf < fuel
      → (buf' : List ℕ) × (manchester quality allowed_errors fuel buf ≡ some buf')
        × (length buf' ≡ length buf)
  unfolding manchester
  manchester_ends fuel buf h k = loop_ends fuel (length buf) _ h (omega arith) (omega arith)
