-- ===== src/Tokio/StartTests.antt =====
-- The start of a TCP client and of a TCP server on examples.
use Prim.Native.String.{String}
use brilliance_network.Prelude.{
  ℕ, ◌≡◌, refl, true, Option, none, some, List, [], ◌∷◌, ◌==◌, if◌then◌else◌, Outcome, done,
}
use brilliance_network.Channel.{queues, Decoded, ok, err}
use brilliance_network.Resolve.{
  colon, ParseIntError, port_error, split, to_digit, parse_digits, parse_u16, resolve_domain,
  resolve_pieces, resolve_connect_domain,
}
use brilliance_network.Tokio.Client
use brilliance_network.Tokio.Client.{TokioClient}
use brilliance_network.Tokio.Start.{
  Streams, StartError, resolve_failed, connection_failed, start_client, accept_loop,
}

-- Port 80 answers.
abbrev streams : Streams ℕ ℕ ℕ ℕ ℕ
streams = record {
  connect = λ addr. if addr.port == 80 then ok 1 else err 111;
  set_nodelay = λ flag s. ok s;
  into_split = λ s. (s, s);
}

abbrev start : List ℕ → Outcome (Decoded (TokioClient queues ℕ ℕ String × ℕ × ℕ) (StartError ℕ ℕ))
unfolding start_client
start = start_client queues streams (λ name. some (4 ∷ [])) (λ ip. ip == 6) ""

started :
    (start (97 ∷ colon ∷ 56 ∷ 48 ∷ []) ≡ done (ok (Client.new queues "", 1, 1)))
    × (start (97 ∷ []) ≡ done (err (connection_failed (record { ip = 4; port = 25565 }) 111)))
    × (start (97 ∷ colon ∷ []) ≡ done (err (resolve_failed (port_error ParseIntError.empty))))
unfolding start start_client Client.new resolve_connect_domain resolve_pieces resolve_domain split
    parse_u16 parse_digits to_digit
started = (refl, refl, refl)

abbrev arrivals : List (Option (ℕ × ℕ))
arrivals = some (1, 2) ∷ none ∷ some (3, 4) ∷ []

accepted : accept_loop queues arrivals ([], true) ≡ ((1, 2) ∷ (3, 4) ∷ [], true)
unfolding accept_loop
accepted = refl
