-- ===== src/Tests/SetUps.antt =====
-- The functions that make sockets, on systems that answer in a fixed way.
use hodgepodge.Prelude.{◌≡◌, refl, true, [], ◌∷◌, if◌then◌else◌, ℤ, pos, negsuc}
use hodgepodge.SetUp.{
  Call, socket_inet, socket_unix, accept, bind, System, Request, listen_at_port, minus, set_up,
  is_negative, listen_inet, create_stream, set_block_mode, set_up_listen_inet,
}
use hodgepodge.SetUp.Opened.{opened, set_up-opened}

-- Sockets are given the number `fd`, no name can be bound, and all else succeeds.
abbrev answer_with : ℤ → Call → ℤ
answer_with fd socket_inet = fd
answer_with fd socket_unix = fd
answer_with fd (accept d) = fd
answer_with fd (bind d a) = negsuc 0
answer_with fd c = pos 0

abbrev no_names : ℤ → System
no_names fd = record {
  answer = λ log c. answer_with fd c;
  peer = λ log. [];
  is_sock = λ log. true;
  owner = λ log. 0;
}

abbrev at_8080 : Request
at_8080 = listen_at_port (pos 8080) (pos 10) true

at_8080_fails : (set_up (no_names (pos 5)) at_8080 []).0 ≡ minus 1
unfolding set_up set_up_listen_inet listen_inet create_stream set_block_mode
at_8080_fails = refl

set_up-opened_example : opened (set_up (no_names (pos 5)) at_8080 []).1 ≡ (
    if is_negative (set_up (no_names (pos 5)) at_8080 []).0
    then []
    else (set_up (no_names (pos 5)) at_8080 []).0 ∷ [])
set_up-opened_example = set_up-opened (no_names (pos 5)) at_8080 [] refl
