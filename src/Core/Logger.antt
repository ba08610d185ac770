-- ===== src/Core/Logger.antt =====
-- `Logger` of runtime.cpp. The consumer's callback is a parameter of `emit`: whether it throws at a
-- message. The messages that it is called with are kept in order.
use Prim.Native.String.{String}
use mathlib.Core.List.{append-nil, append_assoc}
use libvirtualhid.Base.{
  ◌≡◌, ◌∙◌, refl, ap, sym, inl, inr, Bool-cases, Bool, true, false, ◌&&◌, ◌||◌, not, List, [], ◌∷◌,
  ◌++◌, if◌then◌else◌, arith,
}

pub data LogLevel : Type 0 where
  debug info warning error : LogLevel

pub record Logger : Type 0 where
  pub installed : Bool
  pub callback_failed : Bool
  pub delivered : List (LogLevel × String)

abbrev pub enabled : Logger → Bool
enabled l = l.installed && not l.callback_failed

module _ (throws : LogLevel → String → Bool) where
  pub emit : Logger → LogLevel → String → Logger
  emit l level message = if not (enabled l) then l else record l {
    delivered = l.delivered ++ (level, message) ∷ [];
    callback_failed = throws level message;
  }

  pub emit_all : Logger → List (LogLevel × String) → Logger
  emit_all l [] = l
  emit_all l ((level, message) ∷ rest) = emit_all (emit l level message) rest

  -- The messages up to the first at which the callback throws, that one included, and whether there is one.
  abbrev pub until_throw : List (LogLevel × String) → List (LogLevel × String)
  until_throw [] = []
  until_throw (m ∷ rest) = m ∷ (if throws m.0 m.1 then [] else until_throw rest)

  abbrev pub any_throws : List (LogLevel × String) → Bool
  any_throws [] = false
  any_throws (m ∷ rest) = throws m.0 m.1 || any_throws rest

  emit_all-disabled :
      (l : Logger) (ms : List (LogLevel × String)) → enabled l ≡ false → emit_all l ms ≡ l
  unfolding emit_all emit
  emit_all-disabled l [] h = refl
  emit_all-disabled l ((level, message) ∷ rest) h = ground (arith, emit_all-disabled l rest h)

  abbrev logger : Bool → Bool → List (LogLevel × String) → Logger
  logger installed failed delivered = record {
    installed = installed;
    callback_failed = failed;
    delivered = delivered;
  }

  emit_all-enabled :
      (d ms : List (LogLevel × String))
      → emit_all (logger true false d) ms ≡ logger true (any_throws ms) (d ++ until_throw ms)
  unfolding emit_all emit
  emit_all-enabled d [] = ap (logger true false) (sym (append-nil d))
  emit_all-enabled d (m ∷ rest) = elim (Bool-cases (throws m.0 m.1)) [
    | inl thrown ↦ rw (thrown) (emit_all-disabled (logger true true (d ++ m ∷ [])) rest refl)
    | inr passed ↦ rw (passed) (
        emit_all-enabled (d ++ m ∷ []) rest
        ∙ ap (logger true (any_throws rest)) (append_assoc d (m ∷ []) (until_throw rest)))
  ]

  emit_all-flags :
      (installed failed : Bool) (d ms : List (LogLevel × String))
      → emit_all (logger installed failed d) ms ≡ (
          if installed && not failed
          then logger installed (any_throws ms) (d ++ until_throw ms)
          else logger installed failed d)
  emit_all-flags true false d ms = emit_all-enabled d ms
  emit_all-flags true true d ms = emit_all-disabled (logger true true d) ms refl
  emit_all-flags false failed d ms = emit_all-disabled (logger false failed d) ms refl

  -- The logger after any messages. If its callback is there and has not thrown, the callback is called with
  -- the messages in their order up to the first at which it throws, that one included, and with none after
  -- it; the logger then knows whether it has thrown. Any other logger stays as it is.
  pub emit_all-until_throw :
      (l : Logger) (ms : List (LogLevel × String))
      → emit_all l ms ≡ (
          if enabled l
          then record l {
            delivered = l.delivered ++ until_throw ms;
            callback_failed = any_throws ms;
          }
          else l)
  emit_all-until_throw l ms = emit_all-flags l.installed l.callback_failed l.delivered ms
