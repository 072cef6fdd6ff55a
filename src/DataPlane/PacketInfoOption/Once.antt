-- ===== src/DataPlane/PacketInfoOption/Once.antt =====
-- The two walks over one packet in the same event, and a packet that comes round again.
use rpl.Base.{
  ℕ, ◌%◌, ◌≡◌, ◌≢◌, inl, inr, refl, Option-cases, true, false, Option, none, some, arith,
  Bool-cases, ◌==◌,
}
use rpl.Header.PacketInfo.{PacketInfoHeader}
use rpl.Header.PacketInfo
use rpl.DataPlane.PacketInfoOption.{
  OptionState, Protocol, Processed, is_same, left_alone, act, process_option,
}

same_later :
    (state : OptionState) (uid now t : ℕ)
    → is_same state uid now ≡ true
    → is_same state uid t ≡ (now == t)
same_later state uid now t h = elim (Option-cases state.last_processed_time) [
  | inl e ↦ ground (arith, h, e)
  | inr (time, e) ↦ ground (arith, h, e)
]

-- After a well formed option the packet is the one acted on last, at that time only.
process_option-is_same :
    (draw : ℕ → ℕ → ℕ) (state : OptionState) (now uid destination t : ℕ)
    (protocol : Option Protocol) (rpi : PacketInfoHeader)
    → rpi.malformed ≡ false
    → is_same (process_option draw state now uid destination protocol rpi).state uid t ≡ (now == t)
unfolding process_option
process_option-is_same draw state now uid destination t none rpi ok =
    elim (Bool-cases (is_same state uid now)) [
      | inl e ↦ rw (ok, e) (same_later state uid now t e)
      | inr e ↦ rw (ok, e) (ground arith)
    ]
process_option-is_same draw state now uid destination t (some rpl) rpi ok =
    elim (Bool-cases (is_same state uid now)) [
      | inl e ↦ rw (ok, e) (same_later state uid now t e)
      | inr e ↦ rw (ok, e) (ground arith)
    ]

process_option-left_alone :
    (draw : ℕ → ℕ → ℕ) (state : OptionState) (now uid destination : ℕ) (protocol : Option Protocol)
    (rpi : PacketInfoHeader)
    → rpi.malformed ≡ false
    → is_same state uid now ≡ true
    → process_option draw state now uid destination protocol rpi
      ≡ left_alone state protocol false (PacketInfo.get_serialized_size rpi % 256)
unfolding process_option
process_option-left_alone draw state now uid destination protocol rpi ok e = rw (ok, e) refl

process_option_acts :
    (draw : ℕ → ℕ → ℕ) (state : OptionState) (now uid destination : ℕ) (rpl : Protocol)
    (rpi : PacketInfoHeader)
    → rpi.malformed ≡ false
    → is_same state uid now ≡ false
    → (process_option draw state now uid destination (some rpl) rpi).rewritten
      ≡ some (act draw now destination rpl rpi).1
unfolding process_option
process_option_acts draw state now uid destination rpl rpi ok e = rw (ok, e) refl

-- A packet processed once, its option well formed, is left alone when the same event processes it a
-- second time: nothing is rewritten, dropped or changed. At another time it is acted on again, which
-- is how a packet that loops back is checked.
pub process_option_once :
    (draw : ℕ → ℕ → ℕ) (state : OptionState) (now later uid destination : ℕ) (rpl : Protocol)
    (protocol : Option Protocol) (rpi again : PacketInfoHeader)
    → rpi.malformed ≡ false
    → again.malformed ≡ false
    → later ≢ now
    → let first = process_option draw state now uid destination protocol rpi in
      (process_option draw first.state now uid destination first.protocol again
        ≡ left_alone first.state first.protocol false (PacketInfo.get_serialized_size again % 256))
      × ((process_option draw first.state later uid destination (some rpl) again).rewritten
          ≡ some (act draw later destination rpl again).1)
process_option_once draw state now later uid destination rpl protocol rpi again ok ok2 ne =
    let first : Processed = process_option draw state now uid destination protocol rpi in
    (
      process_option-left_alone draw first.state now uid destination first.protocol again ok2 (
          ground
            (arith, process_option-is_same draw state now uid destination now protocol rpi ok)),
      process_option_acts draw first.state later uid destination rpl again ok2 (
          ground
            (arith, process_option-is_same draw state now uid destination later protocol rpi ok)),
    )
