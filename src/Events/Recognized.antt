-- ===== src/Events/Recognized.antt =====
-- What SetFromMessage makes of a message.
use sg_core.Prelude.{
  ◌≡◌, refl, arith, Bool, true, false, ◌&&◌, ℕ, zero, suc, returns-injective, String, if◌then◌else◌,
  returns, inl, inr, Bool-cases,
}
use sg_core.Events.Source.{
  Patterns, recognize_ceilometer, recognize_collectd, recognizers, source_string, find_source,
  set_from_string, set_from_message,
}

module _ (p : Patterns) where
  -- The name of the source of a message.
  abbrev pub source_name : String → String
  source_name jsondata =
      if recognize_collectd p jsondata
      then "collectd"
      else if recognize_ceilometer p jsondata
      then "ceilometer"
      else "generic"

  -- A message that is not in both formats gets the name of its own, or "generic" if it is in neither,
  -- whatever the order in which the recognizers are tried and whatever the source was before.
  pub set_from_message-source_string :
      (collectd_first : Bool) (jsondata : String) (src : ℕ)
      → (recognize_collectd p jsondata && recognize_ceilometer p jsondata) ≡ false
      → source_string (set_from_message (recognizers p collectd_first) jsondata src)
        ≡ returns (source_name jsondata)
  unfolding source_string set_from_message set_from_string find_source recognizers
  set_from_message-source_string true jsondata src h =
      elim (Bool-cases (recognize_collectd p jsondata)) [
        | inl collectd ↦ rw collectd refl
        | inr other ↦ rw other (elim (Bool-cases (recognize_ceilometer p jsondata)) [
          | inl ceilometer ↦ rw ceilometer refl
          | inr generic ↦ rw generic refl
        ])
      ]
  set_from_message-source_string false jsondata src h =
      elim (Bool-cases (recognize_collectd p jsondata)) [
        | inl collectd ↦ elim (Bool-cases (recognize_ceilometer p jsondata)) [
          | inl both ↦ absurd (grind (arith, h, collectd, both))
          | inr no_ceilometer ↦ rw no_ceilometer (rw collectd refl)
        ]
        | inr other ↦ elim (Bool-cases (recognize_ceilometer p jsondata)) [
          | inl ceilometer ↦ rw ceilometer (rw other refl)
          | inr generic ↦ rw generic (rw other refl)
        ]
      ]

-- The name of a source leads back to it, whatever the source was before.
pub set_from_string-source_string :
    (src old : ℕ) (name : String)
    → source_string src ≡ returns name
    → set_from_string name old ≡ (src, true)
unfolding source_string set_from_string find_source
set_from_string-source_string zero old name h = rw (← returns-injective h) refl
set_from_string-source_string (suc zero) old name h = rw (← returns-injective h) refl
set_from_string-source_string (suc (suc zero)) old name h = rw (← returns-injective h) refl
set_from_string-source_string (suc (suc (suc src))) old name h = cc
