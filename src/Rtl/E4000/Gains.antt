-- ===== src/Rtl/E4000/Gains.antt =====
-- The gains that librtlsdr.c offers for the E4000 are the gains that its driver takes.
use rtlsdrwrapper.Base.{
  ℕ, ◌*◌, ◌≡◌, refl, sym, ap, subst, ◌⊎◌, inl, inr, arith, bit_and, List, [], ◌∷◌, All,
}
use rtlsdrwrapper.Base.{Bool, true, false, ◌==◌, if◌then◌else◌, if_ind, some, Option-cases}
use rtlsdrwrapper.Base.Bits.{merge}
use rtlsdrwrapper.Base.Int.{ℤ, pos, negsuc, ltb_ℤ, eq_ℤ, ◌-ℤ◌}
use rtlsdrwrapper.Base.Words.{to_word}
use rtlsdrwrapper.R82xx.State.{Bus}
use rtlsdrwrapper.R82xx.Shadow.{returned}
use rtlsdrwrapper.E4k.State.{E4k, Command, einval, pure, ◌>>=◌, ◌>>◌}
use rtlsdrwrapper.E4k.Regs.{reg_write, reg_read, masked_write, reg_set_mask}
use rtlsdrwrapper.E4k.Gain.{lnagain, lna_code, set_lna_code, set_lna_gain, mixer_gain_set}
use rtlsdrwrapper.Rtl.Usb.{Usb}
use rtlsdrwrapper.Rtl.Device.{Device, Action, e4000}
use rtlsdrwrapper.Rtl.Tuning.{get_tuner_gains}
use rtlsdrwrapper.Rtl.Dongle.{Dongle, dongle_bus}
use rtlsdrwrapper.Rtl.E4000.{Chips, min_ℤ, call_e4k, or_fail, e4000_set_gain, state_of, with_state}

module _ {S : Type 0} (b : Bus S) where
  -- A masked write returns 0 or -1.
  reg_set_mask-code :
      (reg mask val : ℕ) (e : E4k S) → eq_ℤ (reg_set_mask b reg mask val e).0 einval ≡ false
  unfolding reg_set_mask masked_write reg_write ◌>>=◌
  reg_set_mask-code reg mask val e =
      let (rc, e1) = reg_read b reg e in
      let byte = to_word 8 rc in
      let new = merge 8 byte val mask in
      if_ind (λ (c : Command S ℤ). eq_ℤ (c e1).0 einval ≡ false) (bit_and byte mask == val)
        (pure (pos 0)) (reg_write b reg new) (λ _. refl)
        (λ _.
          if_ind (λ r. eq_ℤ r einval ≡ false)
            (returned (b.i2c_write_fn e1.i2c_addr (reg ∷ new ∷ []) e1.rtl_dev).0 2) (pos 0)
            (negsuc 0) (λ _. refl) (λ _. refl))

  -- What setting the LNA's gain does: nothing but an error, or a result that is not the error code.
  abbrev Outcome : E4k S → ℤ × E4k S → Type 0
  Outcome e (r, e') = ((r ≡ einval) × (e' ≡ e)) ⊎ (eq_ℤ r einval ≡ false)

  set_lna_gain-Outcome : (gain : ℤ) (e : E4k S) → Outcome e (set_lna_gain b gain e)
  unfolding set_lna_gain set_lna_code lna_code ◌>>◌
  set_lna_gain-Outcome gain e = elim (Option-cases (lna_code lnagain gain)) [
    | inl missing ↦
        subst (λ o. Outcome e (set_lna_code b o gain e)) (sym missing) (inl (refl, refl))
    | inr (c, found) ↦
        subst (λ o. Outcome e (set_lna_code b o gain e)) (sym found) (inr (ground arith))
  ]

-- The same on the device.
abbrev Tried : {H : Type 0} → Device (Chips H) → ℤ × Device (Chips H) → Type 0
Tried s (r, s') = ((r ≡ einval) × (s' ≡ s)) ⊎ (eq_ℤ r einval ≡ false)

-- Taken with the result 0, or refused with -1 and without a change.
abbrev pub Decided : {H : Type 0} → Device (Chips H) → ℤ × Device (Chips H) → Type 0
Decided s (r, s') = (r ≡ pos 0) ⊎ ((r ≡ negsuc 0) × (s' ≡ s))

module _ {H : Type 0} where
  call_e4k-Tried :
      (m : Command (Dongle H) ℤ) (b : Bus (Dongle H)) (s : Device (Chips H))
      → Outcome b (state_of s) (m (state_of s))
      → Tried s (call_e4k m s)
  unfolding call_e4k
  call_e4k-Tried m b s (inl (failed, same)) = inl (failed, ap (λ e. with_state e s) same)
  call_e4k-Tried m b s (inr fine) = inr fine

  or_fail-Decided :
      (usb : Usb H) (stack : List ℕ) (f g : Action (Chips H)) (s : Device (Chips H))
      → Tried s (f s)
      → ((s1 : Device (Chips H)) → (g s1).0 ≡ pos 0)
      → Decided s (or_fail usb stack f g s)
  unfolding or_fail
  or_fail-Decided usb stack f g s (inl (failed, same)) h = rw failed (inr (refl, same))
  or_fail-Decided usb stack f g s (inr fine) h = rw fine (inl (h (f s).1))

  or_fail-fine :
      (usb : Usb H) (stack : List ℕ) (f g : Action (Chips H)) (s : Device (Chips H))
      → eq_ℤ (f s).0 einval ≡ false
      → ((s1 : Device (Chips H)) → (g s1).0 ≡ pos 0)
      → (or_fail usb stack f g s).0 ≡ pos 0
  unfolding or_fail
  or_fail-fine usb stack f g s fine h = rw fine (h (f s).1)

module _ {H : Type 0} (usb : Usb H) (stack : List ℕ) where
  mixer_taken :
      (good : Bool) (s : Device (Chips H))
      → (or_fail usb stack
          (call_e4k (mixer_gain_set (dongle_bus usb stack) (pos (if good then 12 else 4))))
          (λ s. (pos 0, s))
          s).0
        ≡ pos 0
  unfolding mixer_gain_set or_fail call_e4k
  mixer_taken true s = rw (reg_set_mask-code (dongle_bus usb stack) 0x15 1 1 (state_of s)) refl
  mixer_taken false s = rw (reg_set_mask-code (dongle_bus usb stack) 0x15 1 0 (state_of s)) refl

  -- The two parts of a gain: what is asked of the LNA and of the mixer.
  abbrev mixer_part : ℤ → ℕ
  mixer_part gain = if ltb_ℤ (pos 340) gain then 12 else 4

  abbrev lna_part : ℤ → ℤ
  lna_part gain = min_ℤ (pos 300) (gain -ℤ pos (mixer_part gain * 10))

  abbrev set_lna : ℤ → Action (Chips H)
  unfolding call_e4k
  set_lna gain = call_e4k (set_lna_gain (dongle_bus usb stack) (lna_part gain))

  abbrev set_mixer : ℤ → Action (Chips H)
  unfolding or_fail call_e4k
  set_mixer gain =
      or_fail usb stack (call_e4k (mixer_gain_set (dongle_bus usb stack) (pos (mixer_part gain))))
        (λ s. (pos 0, s))

  -- A gain of the E4000 that is refused with -1 leaves the device as it is; every other gain is taken with
  -- the result 0.
  pub e4000_set_gain-Decided :
      (gain : ℤ) (s : Device (Chips H)) → Decided s (e4000_set_gain usb stack gain s)
  unfolding e4000_set_gain set_lna set_mixer
  e4000_set_gain-Decided gain s =
      let bus = dongle_bus usb stack in
      or_fail-Decided usb stack (set_lna gain) (set_mixer gain) s
        (call_e4k-Tried (set_lna_gain bus (lna_part gain)) bus s
          (set_lna_gain-Outcome bus (lna_part gain) (state_of s)))
        (mixer_taken (ltb_ℤ (pos 340) gain))

  known_gain :
      (gain : ℤ) (c : ℕ) (e : E4k (Dongle H))
      → lna_code lnagain gain ≡ some c
      → eq_ℤ (set_lna_gain (dongle_bus usb stack) gain e).0 einval ≡ false
  unfolding set_lna_gain set_lna_code lna_code ◌>>◌
  known_gain gain c e found =
      subst (λ o. eq_ℤ (set_lna_code (dongle_bus usb stack) o gain e).0 einval ≡ false) (sym found)
        (ground arith)

  taken :
      (gain : ℤ) (c : ℕ)
      → lna_code lnagain (lna_part gain) ≡ some c
      → (s : Device (Chips H)) → (e4000_set_gain usb stack gain s).0 ≡ pos 0
  unfolding e4000_set_gain set_lna set_mixer call_e4k
  taken gain c found s =
      or_fail-fine usb stack (set_lna gain) (set_mixer gain) s
        (known_gain (lna_part gain) c (state_of s) found) (mixer_taken (ltb_ℤ (pos 340) gain))

  -- Every gain that `rtlsdr_get_tuner_gains` lists for the E4000 is taken, in every state of the device.
  pub e4000_gains_taken :
      All
        (λ gain. (s : Device (Chips H)) → (e4000_set_gain usb stack gain s).0 ≡ pos 0)
        (get_tuner_gains e4000)
  unfolding get_tuner_gains lna_code ◌-ℤ◌
  e4000_gains_taken = (
    taken (negsuc 9) 0 refl,
    (
      taken (pos 15) 1 refl,
      (
        taken (pos 40) 4 refl,
        (
          taken (pos 65) 5 refl,
          (
            taken (pos 90) 6 refl,
            (
              taken (pos 115) 7 refl,
              (
                taken (pos 140) 8 refl,
                (
                  taken (pos 165) 9 refl,
                  (
                    taken (pos 190) 10 refl,
                    (
                      taken (pos 215) 11 refl,
                      (
                        taken (pos 240) 12 refl,
                        (
                          taken (pos 290) 13 refl,
                          (taken (pos 340) 14 refl, (taken (pos 420) 14 refl, tt)),
                        ),
                      ),
                    ),
                  ),
                ),
              ),
            ),
          ),
        ),
      ),
    ),
  )
