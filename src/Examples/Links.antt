-- ===== src/Examples/Links.antt =====
-- Two daemons on one connection, at concrete states.
use pmd.Prelude.{ℕ, String, ◌≡◌, ◌≢◌, refl, true, false, none, some, List, [], ◌∷◌, arith}
use pmd.Protocol.Cookie.{compute_cookie_hmac}
use pmd.Membership.{Membership}
use pmd.Daemon.Peer.{ok, err, invalid_hmac, stop}
use pmd.Daemon.Peer.Dialogue.{Side, talk}
use pmd.Daemon.Peer.Dialogue.Agreed.{CanConnect, b_ready, a_closed, talk-refused}
use pmd.Daemon.Peer.Session.{Cleaned}
use pmd.Daemon.Peer.Dialogue.Crossing.{redraw, opened, accepted, crossing-lost}
use pmd.Examples.Cluster.{alice-IsSegment, bob-IsSegment}
use pmd.Examples.Toy.{toy, bytes_eq_complete}
use pmd.Examples.Sessions.{config, cookie, nonce, idle, listening}

-- Alice knows of carol, and bob that dave is gone.
abbrev alice_knows : Membership toy
alice_knows = record {
  doc = record { nodes = []; services = []; first = true; second = false };
  node_id = "alice";
}

abbrev bob_knows : Membership toy
bob_knows = record {
  doc = record { nodes = []; services = []; first = false; second = true };
  node_id = "bob";
}

abbrev side : List ℕ → Membership toy → Side toy
side key membership = record {
  config = config;
  cookie = key;
  nonce = nonce;
  version = "0.1";
  before_register = λ st. st;
  before_sync = λ st. st;
  wall = none;
  now = 5;
  state = record idle { membership = membership };
}

abbrev alice : Side toy
alice = side cookie alice_knows

abbrev bob : Side toy
bob = side cookie bob_knows

abbrev mallory : Side toy
mallory = side (6 ∷ []) alice_knows

can_connect : CanConnect toy alice bob "0.0.0.0:4" "0.0.0.0:4"
can_connect = record {
  same_cookie = refl;
  a_listens = listening;
  b_listens = listening;
  b_unknown = refl;
  a_unknown = refl;
}

tags_differ :
    compute_cookie_hmac toy.crypto mallory.cookie mallory.nonce
    ≢ compute_cookie_hmac toy.crypto bob.cookie mallory.nonce
unfolding compute_cookie_hmac
tags_differ e = absurd (ground (arith, bytes_eq_complete _ _ e))

talk-refused_example :
    talk toy mallory bob 1
    ≡ (a_closed toy mallory bob "0.0.0.0:4" "0.0.0.0:4", stop toy (err invalid_hmac) bob.state)
talk-refused_example = talk-refused toy mallory bob "0.0.0.0:4" "0.0.0.0:4" listening tags_differ 0

abbrev first_nonce : List ℕ
first_nonce = 3 ∷ []

abbrev second_nonce : List ℕ
second_nonce = 4 ∷ 4 ∷ []

crossing-lost_example :
    let alice' = redraw toy first_nonce alice in
    let bob' = redraw toy second_nonce bob in
    let here : String = "0.0.0.0:4" in
    ((opened toy alice bob here here).ended ≡ some (ok tt))
    × ((opened toy bob' alice' here here).ended ≡ some (ok tt))
    × ((accepted toy alice bob here here (λ st. st) (λ st. st)).ended ≡ some (ok tt))
    × ((accepted toy bob' alice' here here (λ st. st) (λ st. st)).ended ≡ some (ok tt))
    × Cleaned toy "alice" here
        (b_ready toy alice bob here here)
        (accepted toy alice bob here here (λ st. st) (λ st. st)).state
    × Cleaned toy "bob" here
        (b_ready toy bob' alice' here here)
        (accepted toy bob' alice' here here (λ st. st) (λ st. st)).state
crossing-lost_example =
    crossing-lost toy alice bob "0.0.0.0:4" "0.0.0.0:4" first_nonce second_nonce (λ st. st)
      (λ st. st) (λ st. st) (λ st. st) can_connect refl refl alice-IsSegment bob-IsSegment
