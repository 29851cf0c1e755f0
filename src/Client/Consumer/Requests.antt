-- ===== src/Client/Consumer/Requests.antt =====
-- The methods of `Consumer` that ask something of the native consumer: acknowledgement, and the others
-- that are passed on as they are (pulsar/__init__.py).
use pulsar_client_python.Base.{ℕ, ◌≡◌, refl, Option, none, some, arith}
use pulsar_client_python.Python.Result.{Result, ok}
use pulsar_client_python.Client.Argument.{Arg}
use pulsar_client_python.Client.Consumer.Registry.{Handle, MessageHandle, receive}

-- What a message is given as: a `Message`, or anything else, for example a native message or message id.
pub data Given : Type 0 where
  message : MessageHandle → Given
  other : Arg → Given

-- What the native consumer is given: a native message, or the argument as it is.
pub data Target : Type 0 where
  native_message : ℕ → Target
  as_given : Arg → Target

pub data Request : Type 0 where
  acknowledging acknowledging_cumulatively acknowledging_negatively : Target → Request
  unsubscribing pausing resuming redelivering : Request
  seeking : Arg → Request

-- `message._message` of a `Message`
unfoldable pub target : Given → Target
target (message m) = native_message m.native
target (other a) = as_given a

-- The argument of the native call behind `receive`.
abbrev pub native_timeout : Arg → Option Arg
native_timeout Arg.none = none
native_timeout t = some t

receive-native :
    (native_receive : ℕ → Option Arg → Result ℕ) (h : Handle) (timeout : Arg) (m : MessageHandle)
    → receive native_receive h timeout ≡ ok m
    → native_receive h.native (native_timeout timeout) ≡ ok m.native
unfolding receive
receive-native native_receive h Arg.none m e = ground arith
receive-native native_receive h timeout m e = ground arith

module _ (native : ℕ → Request → Result (Unit {0})) where
  unfoldable pub acknowledge : Handle → Given → Result (Unit {0})
  unfolding target
  acknowledge h g = native h.native (acknowledging (target g))

  unfoldable pub acknowledge_cumulative : Handle → Given → Result (Unit {0})
  unfolding target
  acknowledge_cumulative h g = native h.native (acknowledging_cumulatively (target g))

  unfoldable pub negative_acknowledge : Handle → Given → Result (Unit {0})
  unfolding target
  negative_acknowledge h g = native h.native (acknowledging_negatively (target g))

  abbrev pub unsubscribe : Handle → Result (Unit {0})
  unsubscribe h = native h.native unsubscribing

  abbrev pub pause_message_listener : Handle → Result (Unit {0})
  pause_message_listener h = native h.native pausing

  abbrev pub resume_message_listener : Handle → Result (Unit {0})
  resume_message_listener h = native h.native resuming

  abbrev pub redeliver_unacknowledged_messages : Handle → Result (Unit {0})
  redeliver_unacknowledged_messages h = native h.native redelivering

  -- `Consumer.seek`
  abbrev pub seek : Handle → Arg → Result (Unit {0})
  seek h a = native h.native (seeking a)

  -- `Reader.seek`
  abbrev pub seek_reader : Handle → Arg → Result (Unit {0})
  seek_reader h a = native h.native (seeking a)

  -- A message that `receive` returned, with a timeout or without, is acknowledged in each of the three
  -- ways as the native message that the native consumer had returned, to the same native consumer.
  pub acknowledge-receive :
      (native_receive : ℕ → Option Arg → Result ℕ) (h : Handle) (timeout : Arg) (m : MessageHandle)
      → receive native_receive h timeout ≡ ok m
      → (msg : ℕ) × (native_receive h.native (native_timeout timeout) ≡ ok msg)
        × (acknowledge h (message m) ≡ native h.native (acknowledging (native_message msg)))
        × (acknowledge_cumulative h (message m)
            ≡ native h.native (acknowledging_cumulatively (native_message msg)))
        × (negative_acknowledge h (message m)
            ≡ native h.native (acknowledging_negatively (native_message msg)))
  unfolding receive acknowledge acknowledge_cumulative negative_acknowledge
  acknowledge-receive native_receive h timeout m received =
      (m.native, receive-native native_receive h timeout m received, refl, refl, refl)
