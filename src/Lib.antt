-- ===== src/Lib.antt =====
-- RTLSDRWrapper: the C library behind the wrapper that drives RTL-SDR dongles, a RTL2832U
-- demodulator on USB with a tuner behind its I2C bus. Modelled are the drivers of the R820T and
-- R828D tuners (Sources/CRTLSDR/src/tuner_r82xx.c), of the E4000
-- (Sources/CRTLSDR/src/tuner_e4k.c), of the FC0012 and of the FC0013, of
-- Sources/CRTLSDR/src/librtlsdr.c the control functions of the demodulator, the search for dongles
-- and the asynchronous stream, and of the command line programs the EEPROM's contents, the decoder
-- of ADS-B, filters of the FM receiver and the choice of device and gain.
-- librtlsdr.c calls a tuner through a table of functions between switching the I2C repeater on
-- and off; the tuner calls its I2C transfers, and both keep their state in structs that are
-- passed along.
--
-- Base: helpers. Base/Tests (comparisons, conditionals), Base/Lists (C arrays), Base/Word and
--   Base/Words (casts, shifts, two's complement), Base/Int (`int`), Base/Bits (laws of `&` and
--   `|`), Base/Order (products), Base/Options (blocks of options).
--
-- R82xx: tuner_r82xx.c with Sources/CRTLSDR/include/tuner_r82xx.h. R82xx/State: `struct
--   r82xx_config`, `struct r82xx_priv`; a function of the driver takes the state and gives a
--   result (a value, a negative error code, or no end: a loop that runs out of fuel, or a copy
--   out of bounds, which is undefined in C) and the state, which keeps what was written before
--   an error. The I2C functions, the dongle model and the GPIO line are
--   the record `Bus`, a parameter. R82xx/State/Keeps: rules for predicates that commands keep.
--   R82xx/Shadow: shadow_store, shadow_equal, r82xx_write (its loop is `send`),
--   r82xx_write_reg, r82xx_read_cache_reg, r82xx_write_reg_mask, r82xx_bitrev, r82xx_read.
--   R82xx/Mux: freq_ranges, r82xx_set_mux. R82xx/Pll: r82xx_set_pll. R82xx/Sysfreq:
--   r82xx_sysfreq_sel. R82xx/Standard: r82xx_set_tv_standard. R82xx/Gain: r82xx_read_gain,
--   r82xx_set_gain. R82xx/Bandwidth: r82xx_set_bandwidth. R82xx/Tune: r82xx_set_freq.
--   R82xx/Init: r82xx_standby, r82xx_xtal_check, r82xx_init. R82xx/Calls: sequences of the
--   calls that librtlsdr.c makes. `IsCoherent` is the invariant that ties them together: the
--   shadow registers agree with the registers of a chip that stores what it is sent
--   (`HasRegisters`).
--
-- E4k: tuner_e4k.c with Sources/CRTLSDR/include/tuner_e4k.h. E4k/State: `struct e4k_state`, and
--   commands, which give a number and the state: this driver drops most return values. It uses
--   the same `Bus`. E4k/Regs: e4k_reg_write to e4k_field_read. E4k/Filter: closest_arr_idx, the
--   RF and IF filters. E4k/Pll: e4k_compute_pll_params, e4k_band_set, e4k_tune_params,
--   e4k_tune_freq. E4k/Gain: e4k_set_lna_gain to e4k_commonmode_set. E4k/Offset:
--   e4k_manual_dc_offset to e4k_dc_offset_gen_table. E4k/Init: e4k_standby, magic_init,
--   e4k_init. `HasBytes` is what the theorems on fields ask of the chip, `HasChip` the same at the
--   driver's address; E4k/Pll/Chip: `HasSynth`, which asks less, of the synthesizer's registers only.
--
-- Fc0012: Sources/CRTLSDR/src/tuner_fc0012.c, which keeps no state; fc0012_writereg to
--   fc0012_set_gain, with `pll_registers` for what fc0012_set_params computes. Fc0012/Divider:
--   what the registers stand for.
--
-- Fc0013: Sources/CRTLSDR/src/tuner_fc0013.c, fc0013_init to fc0013_set_lna_gain, on the register
--   access and arithmetic of Fc0012, which the C code repeats. Fc0013/Laws: what the registers
--   stand for, and the gain table.
--
-- Rtl: librtlsdr.c. Rtl/Usb: register access, rtlsdr_read_array to rtlsdr_set_i2c_repeater; a
--   USB control transfer is the record `Usb`, a parameter. Rtl/Fir: rtlsdr_set_fir. Rtl/Eeprom:
--   rtlsdr_write_eeprom, rtlsdr_read_eeprom. Rtl/Device: `struct rtlsdr_dev`, the tuner table
--   (the record `Tuner`), rtlsdr_init_baseband, rtlsdr_deinit_baseband, rtlsdr_set_if_freq.
--   Rtl/Rate: the resampler's ratio. Rtl/Tuning: rtlsdr_set_center_freq,
--   rtlsdr_set_tuner_bandwidth, rtlsdr_set_tuner_gain and its relatives,
--   rtlsdr_set_sample_rate, rtlsdr_set_offset_tuning. Rtl/Tuning/Control: rtlsdr_set_xtal_freq,
--   rtlsdr_set_freq_correction, rtlsdr_set_direct_sampling, the getters. Rtl/Dongle: what the
--   tuner drivers call through rtlsdr_i2c.h, over `Usb`; it gives them their `Bus`. Rtl/E4000:
--   the E4000's functions of the tuner table, e4000_init to e4000_set_gain_mode;
--   Rtl/Fc0012Entry and Rtl/Fc0013Entry: those of the FC0012 and FC0013. Rtl/Stream: _libusb_callback, rtlsdr_cancel_async,
--   the buffers; Rtl/Stream/Loop: rtlsdr_read_async, where libusb's part is a list of rounds,
--   each with its results and the events handled in it. Rtl/Discovery: known_devices,
--   rtlsdr_get_device_count to rtlsdr_get_index_by_serial over libusb's list of devices.
--
-- Tools: the programs. Tools/Image: rtl_eeprom.c, get_string_descriptor to gen_eeprom_from_conf;
--   Tools/Image/Strings and Tools/Image/Room: one string descriptor; Tools/Image/Defaults:
--   gen_default_conf and what main does between reading and writing the EEPROM. Tools/Adsb:
--   rtl_adsb.c, magnitute to manchester; Tools/Adsb/Frames: messages and display;
--   Tools/Adsb/Clean and Tools/Adsb/Frames/Gather and /Whole: signals without errors,
--   Tools/Adsb/Chain: from samples to bytes. Tools/Fm: rtl_fm.c, rotate_90, low_pass,
--   low_pass_real, fifth_order, multiply, fast_atan2, polar_disc_fast, usb_demod, lsb_demod,
--   deemph_filter; fast_atan2 is the C function as long as no product leaves 32 bits.
--   Tools/Fm/Decimation, Tools/Fm/Rotation, Tools/Fm/Angle: their theorems; Tools/Fm/HalfBand:
--   fifth_order. Tools/Convenience: convenience/convenience.c, nearest_gain and
--   verbose_device_search; the search runs on the list of devices of Rtl/Discovery.
--
-- Numbers are native; casts keep the low bits. Fuel: `send` has one round more than bytes to
-- send, and each round of a message with room for a byte sends one; the divider search has eight
-- rounds, of which six divide. The event loop of a stream runs on the rounds that are given. The
-- loop of manchester needs no more rounds than there are samples, and one to end, if an error is
-- allowed, since each round goes on. Loops with a fixed number of rounds have exactly these. The
-- quotients of doubles in rtlsdr_set_sample_rate, rtlsdr_set_if_freq and
-- rtlsdr_set_sample_freq_correction are integer divisions, which give the same integer part in
-- their ranges; of the rate of the resampler, a double, only that part is modelled, which is what
-- the device stores; the correction of a crystal in parts per million is a parameter. Bytes that C
-- reads before anything was stored are a parameter `stack`.
--
-- Not modelled: opening and closing a dongle; synchronous reading, a call of libusb; the FC2580,
-- and the table's entries but those of the E4000, FC0012 and FC0013; zero-copy buffers and what is
-- compiled for Windows; of the programs the other filters of rtl_fm.c, rtl_power.c, rtl_tcp.c and the recorders, the
-- reading of arguments, threads, files and floating point; libusb and getopt, third-party code;
-- the Swift wrapper; printing and delays.
pub mod Base
pub mod R82xx
pub mod E4k
pub mod Fc0012
pub mod Fc0013
pub mod Rtl
pub mod Tools
