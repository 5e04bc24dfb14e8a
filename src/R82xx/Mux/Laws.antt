-- ===== src/R82xx/Mux/Laws.antt =====
-- The front end is set for the band that holds the frequency.
use rtlsdrwrapper.Base.{
  ℕ, ◌<◌, ◌≤◌, ◌/◌, ◌≡◌, refl, arith, List, [], ◌∷◌, ltb, ◌⊎◌, inl, inr, if_ind, ltb→lt,
}
use rtlsdrwrapper.Base.{All}
use rtlsdrwrapper.R82xx.State.{Bus}
use rtlsdrwrapper.R82xx.State.Keeps.{Keeps}
use rtlsdrwrapper.R82xx.Shadow.Coherent.{HasRegisters, IsCoherent}
use rtlsdrwrapper.R82xx.Shadow.Rules.{coherent_rules}
use rtlsdrwrapper.R82xx.Mux.{FreqRange, find_range, range_of, first_range, more_ranges, set_mux}

module _ {S : Type 0} (b : Bus S) (addr : ℕ) (chip : HasRegisters b addr) where
  pub set_mux-IsCoherent : (freq : ℕ) → Keeps (IsCoherent b addr chip) (set_mux b freq)
  unfolding set_mux
  set_mux-IsCoherent freq = search coherent_rules depth 12

abbrev Among : FreqRange → List FreqRange → Type 0
Among r [] = ⊥
Among r (n ∷ ns) = (r ≡ n) ⊎ Among r ns

-- The start frequencies do not fall along the list.
abbrev IsSorted : ℕ → List FreqRange → Type 0
IsSorted lo [] = Unit
IsSorted lo (n ∷ ns) = (lo ≤ n.freq) × IsSorted n.freq ns

-- `r` stands in the table, starts at or below `f`, and no entry that does so starts above it.
abbrev pub IsBand : List FreqRange → ℕ → FreqRange → Type 0
IsBand table f r = Among r table × (r.freq ≤ f) × All (λ e. e.freq ≤ f → e.freq ≤ r.freq) table

above :
    (lo f k : ℕ) (ns : List FreqRange)
    → f < lo
    → IsSorted lo ns
    → All (λ e. e.freq ≤ f → e.freq ≤ k) ns
above lo f k [] h s = tt
above lo f k (n ∷ ns) h s = (λ p. absurd (omega arith), above n.freq f k ns (omega arith) s.1)

find_range-IsBand :
    (r : FreqRange) (ns : List FreqRange) (f : ℕ)
    → IsSorted r.freq ns
    → r.freq ≤ f
    → IsBand (r ∷ ns) f (find_range r ns f)
unfolding find_range
find_range-IsBand r [] f s h = (inl refl, h, (λ p. omega arith, tt))
find_range-IsBand r (n ∷ ns) f s h =
    if_ind (IsBand (r ∷ n ∷ ns) f) (ltb f n.freq) r (find_range n ns f)
      (λ e. (
        inl refl,
        h,
        (
          λ p. omega arith,
          (λ p. absurd (ground arith), above n.freq f r.freq ns (ltb→lt f n.freq e) s.1),
        ),
      ))
      (λ e.
        let rest = find_range-IsBand n ns f s.1 (ground arith) in
        (inr rest.0, rest.1, (λ p. omega (arith, rest.2.0 (ground arith)), rest.2)))

-- For every frequency the entry that is used is the one of the table whose band holds it: the last
-- that starts at or below the frequency in MHz.
pub range_of-IsBand :
    (freq : ℕ) → IsBand (first_range ∷ more_ranges) (freq / 1000000) (range_of freq)
unfolding range_of
range_of-IsBand freq =
    find_range-IsBand first_range more_ranges (freq / 1000000) (omega arith) (omega arith)
