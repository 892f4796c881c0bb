-- ===== src/Control/Method.antt =====
-- `ControlMethod` of src/control_protocol.rs.
use tls_tunnel.Prelude.{
  ◌≡◌, ◌↔◌, ap, ◌∙◌, refl, Option, none, some, Str, codes, if◌then◌else◌, ◌==◌, nat_eq, list_eq,
  list_beq_iff, arith,
}

pub data ControlMethod : Type 0 where
  authenticate submit_config heartbeat push_config_status push_stats push_exception : ControlMethod

unfoldable pub from_str : Str → Option ControlMethod
from_str s =
    if s == codes "authenticate"
    then some authenticate
    else if s == codes "submit_config"
    then some submit_config
    else if s == codes "heartbeat"
    then some heartbeat
    else if s == codes "push_config_status"
    then some push_config_status
    else if s == codes "push_stats"
    then some push_stats
    else if s == codes "push_exception"
    then some push_exception
    else none

-- The text of a method, as the protocol writes it.
abbrev pub method_name : ControlMethod → Str
method_name authenticate = codes "authenticate"
method_name submit_config = codes "submit_config"
method_name heartbeat = codes "heartbeat"
method_name push_config_status = codes "push_config_status"
method_name push_stats = codes "push_stats"
method_name push_exception = codes "push_exception"

name-from_str : (s : Str) (m : ControlMethod) → from_str s ≡ some m → s ≡ method_name m
unfolding from_str
name-from_str s m h = ground (
  arith,
  h,
  list_beq_iff s (codes "authenticate"),
  list_beq_iff s (codes "submit_config"),
  list_beq_iff s (codes "heartbeat"),
  list_beq_iff s (codes "push_config_status"),
  list_beq_iff s (codes "push_stats"),
  list_beq_iff s (codes "push_exception"),
)

from_str-name : (m : ControlMethod) → from_str (method_name m) ≡ some m
unfolding from_str
from_str-name authenticate = refl
from_str-name submit_config = refl
from_str-name heartbeat = refl
from_str-name push_config_status = refl
from_str-name push_stats = refl
from_str-name push_exception = refl

-- A text is read as a method exactly if it is the name of this method.
pub from_str_iff : (s : Str) (m : ControlMethod) → (from_str s ≡ some m) ↔ (s ≡ method_name m)
from_str_iff s m = (name-from_str s m, λ e. ap from_str e ∙ from_str-name m)
