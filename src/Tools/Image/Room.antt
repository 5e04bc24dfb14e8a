-- ===== src/Tools/Image/Room.antt =====
-- When a string descriptor of rtl_eeprom.c can be written, and where it ends.
use rtlsdrwrapper.Base.{
  ℕ, ◌+◌, ◌*◌, ◌%◌, ◌≤◌, ◌≡◌, refl, subst, ap, ◌∙◌, inl, inr, List, [], ◌∷◌, Option, none, some,
  arith,
}
use rtlsdrwrapper.Base.{Bool, true, ◌||◌, ltb, leb, ◌==◌, if◌then◌else◌, Bool-cases, set, length}
use rtlsdrwrapper.Tools.Image.{c_string, set_chars, close_string, set_string_descriptor}
use rtlsdrwrapper.Tools.Image.Strings.{Holds, set_string_descriptor-Holds}

-- Whether a string can be written at `pos`, and what the call returns.
abbrev pub has_room : ℕ → List ℕ → Bool
has_room pos chars = (length chars == 0) || leb (pos + 2 * length chars) 77

set_chars-result :
    (pos j : ℕ) (str dat : List ℕ)
    → (set_chars pos j str dat).0 ≡ (
        if (length (c_string str) == 0) || ltb (pos + j + 2 * length (c_string str)) 80
        then some (j + 2 * length (c_string str))
        else none)
unfolding set_chars
set_chars-result pos j [] dat = ground arith
set_chars-result pos j (c ∷ str) dat = elim (Bool-cases (c == 0)) [
  | inl e ↦ rw e (ground arith)
  | inr e ↦
      let rest = set (set dat (pos + j) c) (pos + j + 1) 0 in
      rw e (ground (arith, set_chars-result pos (j + 2) str rest))
]

close_string-result :
    (pos : ℕ) (r : Option ℕ × List ℕ) (t : Bool) (j : ℕ)
    → r.0 ≡ (if t then some j else none)
    → (close_string pos r).0 ≡ (if t then some (pos + j) else none)
close_string-result pos (none, dat) t j e = ground arith
close_string-result pos (some k, dat) t j e = ground arith

set_string_descriptor-result :
    (pos : ℕ) (str dat : List ℕ)
    → (set_string_descriptor (some pos) dat str).0
      ≡ (if has_room pos (c_string str) then some (pos + 2 + 2 * length (c_string str)) else none)
unfolding set_string_descriptor
set_string_descriptor-result pos str dat =
    close_string-result pos _ _ (2 + 2 * length (c_string str))
      (set_chars-result pos 2 str (set dat (pos + 1) 3))
    ∙ ground arith

-- The position behind a string; a position of -1 is passed on.
abbrev pub behind : Option ℕ → List ℕ → Option ℕ
behind none chars = none
behind (some pos) chars = if has_room pos chars then some (pos + 2 + 2 * length chars) else none

pub set_string_descriptor-behind :
    (pos : Option ℕ) (dat str : List ℕ)
    → (set_string_descriptor pos dat str).0 ≡ behind pos (c_string str)
unfolding set_string_descriptor
set_string_descriptor-behind none dat str = refl
set_string_descriptor-behind (some pos) dat str = set_string_descriptor-result pos str dat

split_result :
    (pos p' : ℕ) (chars dat : List ℕ) (r : Option ℕ × List ℕ)
    → r.0 ≡ some p'
    → Holds pos chars dat r
    → (dat' : List ℕ) × (r ≡ (some p', dat')) × Holds pos chars dat (some p', dat')
split_result pos p' chars dat (none, d) e h = absurd (ground arith)
split_result pos p' chars dat (some q, d) e h =
    (d, ap (λ o. (o, d)) e, subst (λ o. Holds pos chars dat (o, d)) e h)

-- Where there is room the call succeeds, and what it leaves holds the string.
pub stored_string :
    (pos : ℕ) (str dat : List ℕ)
    → pos % 2 ≡ 1
    → pos ≤ 81
    → length dat ≡ 256
    → has_room pos (c_string str) ≡ true
    → let pos' = pos + 2 + 2 * length (c_string str) in
      (dat' : List ℕ) × (set_string_descriptor (some pos) dat str ≡ (some pos', dat'))
      × Holds pos (c_string str) dat (some pos', dat')
stored_string pos str dat odd h len room =
    split_result pos _ (c_string str) dat _
      (set_string_descriptor-result pos str dat ∙ rw room refl)
      (set_string_descriptor-Holds pos str dat odd h len)
