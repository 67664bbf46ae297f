-- ===== src/Relay/Traffic.antt =====
-- `TrafficPadder` and the blind requests of protocol/src/zk_relay.rs. Random bytes are arguments.
use shadowmesh.Base.{
  take-append, ℕ, ◌-◌, ◌%◌, ◌≤◌, ◌≡◌, refl, ap, sym, ◌∙◌, Bool, true, Option, none, some, [], ◌∷◌,
  ◌++◌, arith, Str, length, length-append, length-take, take, if◌then◌else◌, leb, min_ℕ, max_ℕ,
  Bool-cases, inl, inr,
}
use mathlib.Core.List.{append-nil}

pub record TrafficPadder : Type 0 where
  pub min_size : ℕ
  pub target_size : ℕ
  pub timing_jitter : Bool
  pub max_jitter_ms : ℕ

abbrev pub default_padder : TrafficPadder
default_padder = record {
  min_size = 512;
  target_size = 512;
  timing_jitter = true;
  max_jitter_ms = 50;
}

abbrev pub with_size : ℕ → TrafficPadder
with_size target_size = record default_padder { min_size = target_size; target_size = target_size }

-- `random` is at least so many bytes as are drawn.
unfoldable pub pad : Str → TrafficPadder → Str → Str
pad random padder content =
    if leb padder.target_size (length content)
    then content
    else content ++ take (padder.target_size - length content) random

unfoldable pub unpad : Str → ℕ → Str
unpad content original_len = take (min_ℕ original_len (length content)) content

-- In milliseconds.
unfoldable pub get_jitter : ℕ → TrafficPadder → ℕ
get_jitter random padder = if padder.timing_jitter then random % padder.max_jitter_ms else 0

pub record BlindRequest : Type 0 where
  pub content_hash : Str
  pub range : Option (ℕ × ℕ)
  pub request_id : Str
  pub timestamp : ℕ

pub record BlindResponse : Type 0 where
  pub request_id : Str
  pub encrypted_content : Str
  pub content_hash : Str
  pub success : Bool
  pub error : Option Str

-- The nonce, which has twelve bytes, and four zeros.
abbrev pub new_request : ℕ → Str → Str → BlindRequest
new_request unix nonce content_hash = record {
  content_hash = content_hash;
  range = none;
  request_id = nonce ++ 0 ∷ 0 ∷ 0 ∷ 0 ∷ [];
  timestamp = unix;
}

abbrev pub with_range : ℕ → Str → Str → ℕ → ℕ → BlindRequest
with_range unix nonce content_hash start end = record (new_request unix nonce content_hash) {
  range = some (start, end);
}

length-pad :
    (random : Str) (padder : TrafficPadder) (content : Str)
    → padder.target_size ≤ length random
    → length (pad random padder content) ≡ max_ℕ padder.target_size (length content)
unfolding pad
length-pad random padder content enough =
    let left = padder.target_size - length content in
    ground (arith, length-append content (take left random), length-take left random)

unpad-append : (content rest : Str) → unpad (content ++ rest) (length content) ≡ content
unfolding unpad
unpad-append content rest =
    let least : min_ℕ (length content) (length (content ++ rest)) ≡ length content =
      ground (arith, length-append content rest) in
    rw least (take-append (length content) content rest refl)

-- Whatever the size of a message, it is padded to the target at least and never cut, and with its
-- length the receiver has it back. (Enough random bytes are drawn.)
pub unpad-pad :
    (random : Str) (padder : TrafficPadder) (content : Str)
    → padder.target_size ≤ length random
    → (length (pad random padder content) ≡ max_ℕ padder.target_size (length content))
      × (unpad (pad random padder content) (length content) ≡ content)
unfolding pad
unpad-pad random padder content enough = (
  length-pad random padder content enough,
  elim (Bool-cases (leb padder.target_size (length content))) [
    | inl long ↦
        rw long
          (ap (λ c. unpad c (length content)) (sym (append-nil content)) ∙ unpad-append content [])
    | inr short ↦
        rw short (unpad-append content (take (padder.target_size - length content) random))
  ],
)
