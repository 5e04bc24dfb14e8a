-- ===== src/Tools/Image/Strings.antt =====
-- A string descriptor of rtl_eeprom.c that was written is read back, also behind later changes.
use rtlsdrwrapper.Base.{
  ℕ, ◌+◌, ◌-◌, ◌*◌, ◌/◌, ◌%◌, ◌<◌, ◌≤◌, max, ◌≡◌, ◌≢◌, refl, subst, ◌∙◌, inl, inr, List, [], ◌∷◌,
  Option, none, some, arith,
}
use rtlsdrwrapper.Base.{
  true, ltb, leb, ◌==◌, if◌then◌else◌, if_ind, Bool-cases, get_or, set, length, length-set,
  get_or-set, u8,
}
use rtlsdrwrapper.Tools.Image.{
  c_string, strcpy, get_chars, get_string_descriptor, set_chars, close_string,
  set_string_descriptor,
}

-- The same contents below `p`, cell 78 aside.
abbrev pub Agree : ℕ → List ℕ → List ℕ → Type 0
Agree p a b = (length b ≡ length a) × ((k : ℕ) → k < p → k ≢ 78 → get_or b k 0 ≡ get_or a k 0)

pub Agree-Agree : (p q : ℕ) (a b c : List ℕ) → p ≤ q → Agree p a b → Agree q b c → Agree p a c
Agree-Agree p q a b c h (l, f) (m, g) = (m ∙ l, λ k i n. g k (omega arith) n ∙ f k i n)

-- The last store of the contents.
pub Agree-set : (p : ℕ) (dat : List ℕ) → length dat ≡ 256 → Agree p dat (set dat 78 0)
Agree-set p dat len =
    (length-set dat 78 0, λ k i n. ground (arith, get_or-set dat 78 0 k 0 (omega arith)))

-- The characters at `k`, `k + 2`, ...
abbrev pub Stored : ℕ → List ℕ → List ℕ → Type 0
Stored k [] dat = Unit
Stored k (c ∷ chars) dat = (get_or dat k 0 ≡ c) × Stored (k + 2) chars dat

Stored-keep :
    (k : ℕ) (chars a b : List ℕ)
    → k % 2 ≡ 1
    → ((i : ℕ) → k ≤ i → i < k + 2 * length chars → i ≢ 78 → get_or b i 0 ≡ get_or a i 0)
    → Stored k chars a
    → Stored k chars b
Stored-keep k [] a b odd same s = tt
Stored-keep k (c ∷ chars) a b odd same s = (
  ground (arith, same k),
  Stored-keep (k + 2) chars a b (omega arith) (λ i l u. same i (omega arith) (omega arith)) s.1,
)

get_chars-Stored :
    (k : ℕ) (chars dat : List ℕ)
    → k + 2 * length chars ≤ length dat + 1
    → Stored k chars dat
    → get_chars (length chars) k dat ≡ some chars
unfolding get_chars
get_chars-Stored k [] dat h s = refl
get_chars-Stored k (c ∷ chars) dat h s =
    rw (get_chars-Stored (k + 2) chars dat (omega arith) s.1) (ground arith)

-- What the loop that ends by its test leaves, the characters being `chars`.
abbrev Copied : ℕ → ℕ → List ℕ → List ℕ → Option ℕ × List ℕ → Type 0
Copied pos j chars dat (none, dat') = Unit
Copied pos j chars dat (some j', dat') =
    (j' ≡ j + 2 * length chars)
    × (pos + j' ≤ max (pos + j) 79)
    × Agree (pos + j) dat dat'
    × Stored (pos + j) chars dat'

nothing-Copied : (pos j : ℕ) (dat : List ℕ) → Copied pos j [] dat (some j, dat)
nothing-Copied pos j dat = (omega arith, omega arith, (refl, λ k h n. refl), tt)

char-Copied :
    (pos j c : ℕ) (chars dat : List ℕ) (r : Option ℕ × List ℕ)
    → (pos + j) % 2 ≡ 1
    → length dat ≡ 256
    → pos + j < 78
    → Copied pos (j + 2) chars (set (set dat (pos + j) c) (pos + j + 1) 0) r
    → Copied pos j (c ∷ chars) dat r
char-Copied pos j c chars dat (none, dat') odd len h s = tt
char-Copied pos j c chars dat (some j', dat') odd len h (e, u, (same_length, same), stored) = (
  omega arith,
  omega arith,
  (omega (arith, two_lengths), below),
  (first, subst (λ k. Stored k chars dat') (omega arith) stored),
)
  where
    one : List ℕ
    one = set dat (pos + j) c

    two_lengths : (length (set one (pos + j + 1) 0) ≡ 256) × (length one ≡ 256)
    two_lengths = ground (arith, length-set one (pos + j + 1) 0, length-set dat (pos + j) c)

    cell :
        (k : ℕ)
        → get_or (set one (pos + j + 1) 0) k 0
          ≡ (if k == pos + j + 1 then 0 else if k == pos + j then c else get_or dat k 0)
    cell k =
        ground
          (arith, two_lengths, get_or-set one (pos + j + 1) 0 k 0, get_or-set dat (pos + j) c k 0)

    below : (k : ℕ) → k < pos + j → k ≢ 78 → get_or dat' k 0 ≡ get_or dat k 0
    below k l n = ground (arith, cell k, same k (omega arith) n)

    first : get_or dat' (pos + j) 0 ≡ c
    first = ground (arith, cell (pos + j), same (pos + j) (omega arith) (λ e. absurd (omega arith)))

set_chars-Copied :
    (pos j : ℕ) (str dat : List ℕ)
    → (pos + j) % 2 ≡ 1
    → length dat ≡ 256
    → Copied pos j (c_string str) dat (set_chars pos j str dat)
unfolding set_chars
set_chars-Copied pos j [] dat odd len = nothing-Copied pos j dat
set_chars-Copied pos j (c ∷ str) dat odd len = elim (Bool-cases (c == 0)) [
  | inl e ↦ rw e (nothing-Copied pos j dat)
  | inr e ↦ rw e (
      if_ind (Copied pos j (c ∷ c_string str) dat) (leb 78 (pos + j)) _ _ (λ _. tt)
        λ l. char-Copied pos j c (c_string str) dat _ odd len (ground arith) (
          set_chars-Copied pos (j + 2) str _ (omega arith) (
            ground (
              arith,
              length-set dat (pos + j) c,
              length-set (set dat (pos + j) c) (pos + j + 1) 0,
            ))))
]

-- What a descriptor that is written leaves: it is read back as long as nothing below `pos'` changes.
abbrev pub Holds : ℕ → List ℕ → List ℕ → Option ℕ × List ℕ → Type 0
Holds pos chars dat (none, dat') = Unit
Holds pos chars dat (some pos', dat') =
    (pos' ≡ pos + 2 + 2 * length chars)
    × (pos' ≤ max (pos + 2) 79)
    × Agree pos dat dat'
    × ((later str : List ℕ)
        → Agree pos' dat' later
        → get_string_descriptor pos later str ≡ some (pos', strcpy str chars))

closed-Holds :
    (pos : ℕ) (chars dat : List ℕ) (r : Option ℕ × List ℕ)
    → pos % 2 ≡ 1
    → pos ≤ 81
    → length dat ≡ 256
    → Copied pos 2 chars (set dat (pos + 1) 3) r
    → Holds pos chars dat (close_string pos r)
unfolding get_string_descriptor
closed-Holds pos chars dat (none, dat') odd h len s = tt
closed-Holds pos chars dat (some j, dat') odd h len (e, u, (same_length, same), stored) =
    (omega arith, omega arith, (lengths.0, below), read)
  where
    lengths : (length (set dat' pos (u8 j)) ≡ length dat) × (length dat' ≡ 256)
    lengths = ground (arith, length-set dat' pos (u8 j), length-set dat (pos + 1) 3)

    below : (k : ℕ) → k < pos → k ≢ 78 → get_or (set dat' pos (u8 j)) k 0 ≡ get_or dat k 0
    below k l n = ground (
      arith,
      lengths,
      get_or-set dat' pos (u8 j) k 0,
      same k (omega arith) n,
      get_or-set dat (pos + 1) 3 k 0,
    )

    -- The later contents at the descriptor.
    at_later :
        (later : List ℕ)
        → Agree (pos + j) (set dat' pos (u8 j)) later
        → (k : ℕ) → k < pos + j
        → k ≢ 78
        → get_or later k 0 ≡ (if k == pos then u8 j else get_or dat' k 0)
    at_later later agree k l n =
        ground (arith, lengths, agree.1 k l n, get_or-set dat' pos (u8 j) k 0)

    read :
        (later str : List ℕ)
        → Agree (pos + j) (set dat' pos (u8 j)) later
        → get_string_descriptor pos later str ≡ some (pos + j, strcpy str chars)
    read later str agree = rw (rounds, got, inside, whole) refl
      where
        rounds : (get_or later pos 0 - 1) / 2 ≡ length chars
        rounds = ground (arith, at_later later agree pos)

        inside : ltb pos (length later) ≡ true
        inside = ground (arith, agree.0, lengths)

        got : get_chars (length chars) (pos + 2) later ≡ some chars
        got = get_chars-Stored (pos + 2) chars later (omega (arith, agree.0, lengths)) (
            Stored-keep (pos + 2) chars dat' later (omega arith)
              (λ i l v n. ground (arith, at_later later agree i)) stored)

        whole : pos + 2 + 2 * length chars ≡ pos + j
        whole = omega arith

-- A descriptor that fits is read back.
pub set_string_descriptor-Holds :
    (pos : ℕ) (str dat : List ℕ)
    → pos % 2 ≡ 1
    → pos ≤ 81
    → length dat ≡ 256
    → Holds pos (c_string str) dat (set_string_descriptor (some pos) dat str)
unfolding set_string_descriptor
set_string_descriptor-Holds pos str dat odd h len =
    closed-Holds pos (c_string str) dat _ odd h len (
      set_chars-Copied pos 2 str (set dat (pos + 1) 3) (omega arith)
        (omega (arith, length-set dat (pos + 1) 3)))
