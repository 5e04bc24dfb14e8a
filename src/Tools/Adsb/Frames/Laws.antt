-- ===== src/Tools/Adsb/Frames/Laws.antt =====
-- A frame's bits are displayed as its bytes.
use rtlsdrwrapper.Base.{
  ℕ, zero, suc, ◌+◌, ◌-◌, ◌*◌, ◌/◌, ◌%◌, ◌<◌, ◌≤◌, ◌≡◌, refl, ap, ap₂, ◌∙◌, List, [], ◌∷◌, ◌++◌,
  arith,
}
use rtlsdrwrapper.Base.{
  Bool, true, false, ltb, All, length, blit, replicate, take, take_all, take-drop-blit,
}
use mathlib.Core.List.{append-nil}
use rtlsdrwrapper.Tools.Adsb.Frames.{
  Gathered, gather, empty, display, show_gathered, messages, messages_from,
}
use rtlsdrwrapper.Tools.Adsb.Frames.Gather.{encode}
use rtlsdrwrapper.Tools.Adsb.Frames.Whole.{len_of, gathered, gather-frame}

pub length-encode : (bs : List ℕ) → length (encode bs) ≡ 8 * length bs
length-encode [] = refl
length-encode (b ∷ bs) = omega (arith, length-encode bs)

-- Cells that are no bits.
abbrev pub Noise : List ℕ → Type 0
Noise = All (λ x. 1 < x)

module _ (short_output : Bool) (quality : ℕ) where
  messages-Noise :
      (passed : ℕ) (noise : List ℕ)
      → Noise noise
      → messages_from short_output quality passed noise ≡ []
  unfolding messages_from
  messages-Noise passed [] h = refl
  messages-Noise (suc passed) (x ∷ noise) h = messages-Noise passed noise h.1
  messages-Noise zero (x ∷ noise) h =
      let t : ltb 1 x ≡ true = ground arith in rw t (messages-Noise 0 noise h.1)

  messages-skip :
      (noise buf : List ℕ)
      → Noise noise
      → messages_from short_output quality 0 (noise ++ buf)
        ≡ messages_from short_output quality 0 buf
  unfolding messages_from
  messages-skip [] buf h = refl
  messages-skip (x ∷ noise) buf h =
      let t : ltb 1 x ≡ true = ground arith in rw t (messages-skip noise buf h.1)

  messages-passed :
      (n : ℕ) (xs buf : List ℕ)
      → length xs ≤ n
      → messages_from short_output quality n (xs ++ buf)
        ≡ messages_from short_output quality (n - length xs) buf
  unfolding messages_from
  messages-passed n [] buf h = ap (λ t. messages_from short_output quality t buf) (omega arith)
  messages-passed zero (x ∷ xs) buf h = absurd (omega arith)
  messages-passed (suc n) (x ∷ xs) buf h =
      messages-passed n xs buf (omega arith)
      ∙ ap (λ t. messages_from short_output quality t buf) (omega arith)

  messages-start :
      (x : ℕ) (buf : List ℕ)
      → x ≤ 1
      → messages_from short_output quality 0 (x ∷ buf)
        ≡ show_gathered short_output quality (gather (x ∷ buf) empty)
          ++ messages_from short_output quality (gather (x ∷ buf) empty).data_i buf
  unfolding messages_from
  messages-start x buf h = let t : ltb 1 x ≡ false = ground arith in rw t refl

  -- The padding of the array is not displayed.
  show_complete :
      (b len : ℕ) (bs : List ℕ)
      → 8 * suc (length bs) ≡ len
      → length bs ≤ 13
      → show_gathered short_output quality (gathered len (blit (b ∷ replicate 13 0) 1 bs) len)
        ≡ display short_output quality (b ∷ bs) len
  show_complete b len bs h l = rw (complete, bytes, ap (λ t. b ∷ t) padded, whole) refl
    where
      complete : ltb len (len - 1) ≡ false
      complete = ground arith

      bytes : (len + 7) / 8 ≡ suc (length bs)
      bytes = omega arith

      padded : take (length bs) (blit (replicate 13 0) 0 bs) ≡ bs
      padded = take-drop-blit (replicate 13 0) 0 bs (omega arith)

      whole : take (length bs) bs ≡ bs
      whole = take_all (length bs) bs (omega arith)

  pub messages-frame :
      (before behind bs : List ℕ) (b : ℕ)
      → Noise before
      → Noise behind
      → 0 < b
      → All (λ b. b < 256) (b ∷ bs)
      → 8 * length (b ∷ bs) ≡ len_of b
      → messages short_output quality (before ++ (encode (b ∷ bs) ++ behind))
        ≡ display short_output quality (b ∷ bs) (len_of b)
  unfolding messages
  messages-frame before behind bs b n o p k m =
      messages-skip before _ n
      ∙ messages-start (b / 128 % 2) (tail ++ behind) (omega arith)
      ∙ ap
          (λ (g : Gathered).
            show_gathered short_output quality g
            ++ messages_from short_output quality g.data_i (tail ++ behind))
          (gather-frame b bs behind p k.0 k.1 m)
      ∙ ap₂ ◌++◌ (show_complete b (len_of b) bs m (ground arith)) nothing
      ∙ append-nil _
    where
      tail : List ℕ
      tail =
          b / 64 % 2
          ∷ b / 32 % 2
          ∷ b / 16 % 2
          ∷ b / 8 % 2
          ∷ b / 4 % 2
          ∷ b / 2 % 2
          ∷ b % 2
          ∷ encode bs

      nothing : messages_from short_output quality (len_of b) (tail ++ behind) ≡ []
      nothing =
          messages-passed (len_of b) tail behind (omega (arith, length-encode bs))
          ∙ messages-Noise _ behind o
