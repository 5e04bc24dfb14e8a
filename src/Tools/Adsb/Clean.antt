-- ===== src/Tools/Adsb/Clean.antt =====
-- What `manchester` makes of a frame whose samples keep to one side of a threshold.
use rtlsdrwrapper.Base.{
  ℕ, zero, suc, ◌+◌, ◌-◌, ◌*◌, ◌/◌, ◌<◌, ◌≤◌, ◌≡◌, refl, sym, ap, subst, ◌∙◌, List, [], ◌∷◌, some,
  arith,
}
use rtlsdrwrapper.Base.{
  Bool, true, false, ltb, ◌==◌, if◌then◌else◌, length, length-set, length-blit, set, blit,
  replicate, get_or-blit, get_or, get_or-set,
}
use rtlsdrwrapper.Tools.Adsb.{
  Scan, badsample, overwrite, messagego, preamble_len, preamble, single_manchester, store_bit,
  find_preamble, mark_bits, manchester, manchester_loop, manchester_round,
}
use rtlsdrwrapper.Tools.Adsb.Ends.{length-store_bit, mark_bits-moves}

module _ (level : ℕ) where
  -- A 1 falls through the level, a 0 rises through it.
  abbrev pub Encodes : Bool → ℕ → ℕ → Type 0
  Encodes true c d = (level ≤ c) × (d < level)
  Encodes false c d = (c < level) × (level ≤ d)

  abbrev pub bit_of : Bool → ℕ
  bit_of bit = if bit then 1 else 0

  -- Whatever the checks, a clean symbol behind a clean symbol is read as its bit.
  pub single_manchester-Encodes :
      (quality : ℕ) (before bit : Bool) (a b c d : ℕ)
      → Encodes before a b
      → Encodes bit c d
      → single_manchester quality a b c d ≡ bit_of bit
  unfolding single_manchester
  single_manchester-Encodes quality true true a b c d h k = ground arith
  single_manchester-Encodes quality true false a b c d h k = ground arith
  single_manchester-Encodes quality false true a b c d h k = ground arith
  single_manchester-Encodes quality false false a b c d h k = ground arith

  -- The samples from `i` on are the symbols of the bits.
  abbrev pub Symbols : List ℕ → ℕ → List Bool → Type 0
  Symbols buf i [] = Unit
  Symbols buf i (bit ∷ bits) =
      Encodes bit (get_or buf i 0) (get_or buf (i + 1) 0) × Symbols buf (i + 2) bits

  -- The cells from `i` on are the bits.
  abbrev pub Bits : List ℕ → ℕ → List Bool → Type 0
  Bits buf i [] = Unit
  Bits buf i (bit ∷ bits) = (get_or buf i 0 ≡ bit_of bit) × Bits buf (i + 1) bits

  Symbols-keep :
      (buf buf' : List ℕ) (i : ℕ) (bits : List Bool)
      → ((k : ℕ) → i ≤ k → get_or buf' k 0 ≡ get_or buf k 0)
      → Symbols buf i bits
      → Symbols buf' i bits
  Symbols-keep buf buf' i [] same h = tt
  Symbols-keep buf buf' i (true ∷ bits) same h = (
    ground (arith, same i, same (i + 1), h.0),
    Symbols-keep buf buf' (i + 2) bits (λ k l. same k (omega arith)) h.1,
  )
  Symbols-keep buf buf' i (false ∷ bits) same h = (
    ground (arith, same i, same (i + 1), h.0),
    Symbols-keep buf buf' (i + 2) bits (λ k l. same k (omega arith)) h.1,
  )

  get_or-store_bit :
      (buf : List ℕ) (i i2 bit k : ℕ)
      → i2 ≤ i
      → i + 1 < length buf
      → get_or (store_bit buf i i2 bit) k 0 ≡ (
          if k == i2
          then bit
          else if k == i
          then overwrite
          else if k == i + 1
          then overwrite
          else get_or buf k 0)
  get_or-store_bit buf i i2 bit k h l = ground (
    arith,
    length-set (set buf (i + 1) overwrite) i overwrite,
    length-set buf (i + 1) overwrite,
    get_or-set (set (set buf (i + 1) overwrite) i overwrite) i2 bit k 0,
    get_or-set (set buf (i + 1) overwrite) i overwrite k 0,
    get_or-set buf (i + 1) overwrite k 0,
  )

  module _ (quality allowed_errors : ℕ) where
    abbrev next : ℕ → Bool → Scan → Scan
    next i2 bit s = record {
      buf = store_bit s.buf s.i i2 (bit_of bit);
      i = s.i + 2;
      a = get_or s.buf s.i 0;
      b = get_or s.buf (s.i + 1) 0;
    }

    mark_bits-step :
        (n i2 : ℕ) (before bit : Bool) (s : Scan)
        → Encodes before s.a s.b
        → Encodes bit (get_or s.buf s.i 0) (get_or s.buf (s.i + 1) 0)
        → mark_bits quality allowed_errors (suc n) i2 0 s
          ≡ mark_bits quality allowed_errors n (i2 + 1) 0 (next i2 bit s)
    unfolding mark_bits
    mark_bits-step n i2 before bit s e y =
        rw (single_manchester-Encodes quality before bit s.a s.b _ _ e y, not_bad bit) refl
      where
        not_bad : (bit : Bool) → (bit_of bit == badsample) ≡ false
        not_bad true = refl
        not_bad false = refl

    -- From `s` to `t` the bits are stored at `i2`, what stands below stays, and what stands behind
    -- them is overwritten.
    abbrev Marked : ℕ → List Bool → Scan → Scan → Type 0
    Marked i2 bits s t =
        (t.i ≡ s.i + 2 * length bits)
        × Bits t.buf i2 bits
        × ((k : ℕ) → k < i2 → get_or t.buf k 0 ≡ get_or s.buf k 0)
        × ((k : ℕ) → i2 + length bits ≤ k → k < t.i → get_or t.buf k 0 ≡ overwrite)

    mark_bits-Marked :
        (i2 : ℕ) (before : Bool) (bits : List Bool) (s : Scan)
        → i2 ≤ s.i
        → s.i + 2 * length bits ≤ length s.buf
        → Encodes before s.a s.b
        → Symbols s.buf s.i bits
        → ((k : ℕ) → i2 ≤ k → k < s.i → get_or s.buf k 0 ≡ overwrite)
        → Marked i2 bits s (mark_bits quality allowed_errors (length bits) i2 0 s)
    unfolding mark_bits
    mark_bits-Marked i2 before [] s h l e y f =
        (omega arith, tt, (λ k n. refl), λ k n m. f k (omega arith) m)
    mark_bits-Marked i2 before (bit ∷ bits) s h l e y f =
        let ih =
          mark_bits-Marked (i2 + 1) bit bits (next i2 bit s) (omega arith)
            (omega (arith, length-store_bit s.buf s.i i2 (bit_of bit))) y.0
            (Symbols-keep s.buf (next i2 bit s).buf (s.i + 2) bits (λ k n. ground (arith, cell k))
              y.1)
            (λ k n m. ground (arith, cell k, f k)) in
        subst (Marked i2 (bit ∷ bits) s) (sym (mark_bits-step (length bits) i2 before bit s e y.0))
          (
            omega (arith, ih.0),
            (ground (arith, ih.2 i2, cell i2), ih.1),
            (λ k n. ground (arith, ih.2 k, cell k)),
            λ k n m. ih.3 k (omega arith) m,
          )
      where
        cell :
            (k : ℕ)
            → get_or (next i2 bit s).buf k 0 ≡ (
                if k == i2
                then bit_of bit
                else if k == s.i
                then overwrite
                else if k == s.i + 1
                then overwrite
                else get_or s.buf k 0)
        cell k = get_or-store_bit s.buf s.i i2 (bit_of bit) k h (omega arith)

    abbrev found : Scan → Scan
    found s = record {
      buf = blit s.buf s.i (replicate preamble_len messagego);
      i = s.i + preamble_len;
      a = get_or s.buf s.i 0;
      b = get_or s.buf (s.i + 1) 0;
    }

    find_preamble-found :
        (n : ℕ) (s : Scan) → 0 < n → preamble s.buf s.i ≡ true → find_preamble n s ≡ found s
    unfolding find_preamble
    find_preamble-found zero s h e = absurd (omega arith)
    find_preamble-found (suc n) s h e = rw e refl

    manchester_round-found :
        (len : ℕ) (s : Scan)
        → 0 < len - 16 - s.i
        → preamble s.buf s.i ≡ true
        → manchester_round quality allowed_errors len s
          ≡ mark_bits quality allowed_errors ((len - 1 - (s.i + 16) + 1) / 2) (s.i + 16) 0 (found s)
    unfolding manchester_round
    manchester_round-found len s h e = rw (find_preamble-found (len - 16 - s.i) s h e) refl

    -- A buffer that a frame fills.
    pub manchester-frame :
        (fuel : ℕ) (buf : List ℕ) (bits : List Bool)
        → preamble buf 0 ≡ true
        → Encodes true (get_or buf 0 0) (get_or buf 1 0)
        → Symbols buf 16 bits
        → length buf ≡ 16 + 2 * length bits
        → 0 < length bits
        → (buf' : List ℕ) × (manchester quality allowed_errors (suc (suc fuel)) buf ≡ some buf')
          × Bits buf' 16 bits
          × ((k : ℕ) → k < 16 → get_or buf' k 0 ≡ messagego)
          × ((k : ℕ) → 16 + length bits ≤ k → k < length buf → get_or buf' k 0 ≡ overwrite)
          × (length buf' ≡ length buf)
    unfolding manchester manchester_loop
    manchester-frame fuel buf bits pre e y l n = (
      t.buf,
      rw (first, one_round, last) refl,
      marked.1,
      (λ k h. ground (arith, marked.2 k h, cell k)),
      (λ k h m. marked.3 k h (omega (arith, marked.0))),
      (mark_bits-moves quality allowed_errors (length bits) 16 0 (found start)).1
          ∙ length-blit buf 0 (replicate 16 messagego),
    )
      where
        start : Scan
        start = record { buf = buf; i = 0; a = 0; b = 0 }

        cell :
            (k : ℕ)
            → get_or (found start).buf k 0
              ≡ (if ltb k 16 then get_or (replicate 16 messagego) k 0 else get_or buf k 0)
        cell k = ground (arith, get_or-blit buf 0 (replicate 16 messagego) k 0 (omega arith))

        t : Scan
        t = mark_bits quality allowed_errors (length bits) 16 0 (found start)

        marked : Marked 16 bits (found start) t
        marked =
            mark_bits-Marked 16 true bits (found start) (omega arith)
              (omega (arith, length-blit buf 0 (replicate 16 messagego))) e
              (Symbols-keep buf (found start).buf 16 bits (λ k h. ground (arith, cell k)) y)
              (λ k h l. absurd (omega arith))

        first : ltb 0 (length buf - 1) ≡ true
        first = ground arith

        last : ltb t.i (length buf - 1) ≡ false
        last = ground (arith, marked.0)

        one_round : manchester_round quality allowed_errors (length buf) start ≡ t
        one_round =
            manchester_round-found (length buf) start (omega arith) pre
            ∙ ap (λ m. mark_bits quality allowed_errors m 16 0 (found start)) (omega arith)
