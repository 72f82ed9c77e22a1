-- ===== src/Examples/Codec.antt =====
-- Texts for the requests and the responses of the control socket, and bytes for one beacon.
use pmd.Prelude.{
  ℕ, zero, suc, String, ◌≡◌, refl, sym, ap, ap₂, Bool, true, false, ◌&&◌, Option, none, some, List,
  [], ◌∷◌, arith, ◌==◌, eq_iff, if◌then◌else◌,
}
use pmd.Prelude.Maps.{Map}
use pmd.Prelude.Lines.{IsLine, trim, trim_start}
use pmd.Protocol.{ControlRequest, ControlResponse, MembershipEvent, NodeInfoResponse, ServiceEntry}
use pmd.Daemon.Control.Socket.{LineCodec}
use pmd.Discovery.Broadcast.{Beacon, BeaconCodec}
use pmd.Examples.Coding.{Coding, IsFine, IsFine-cons, number, string, list, pair, via}
use pmd.Examples.Toy.{toy}

map_coding : Coding (Map String)
map_coding = list (pair string string)

-- A tag, a text, a port, and a map.
abbrev RequestRow : Type 0
RequestRow = ℕ × (String × (ℕ × Map String))

abbrev request_row : ControlRequest → RequestRow
request_row ControlRequest.status = (0, ("", (0, [])))
request_row ControlRequest.nodes = (1, ("", (0, [])))
request_row ControlRequest.shutdown = (2, ("", (0, [])))
request_row ControlRequest.subscribe = (3, ("", (0, [])))
request_row (ControlRequest.join addr) = (4, (addr, (0, [])))
request_row (ControlRequest.leave addr) = (5, (addr, (0, [])))
request_row (ControlRequest.unregister name) = (6, (name, (0, [])))
request_row (ControlRequest.lookup name) = (7, (name, (0, [])))
request_row (ControlRequest.register name port metadata) = (8, (name, (port, metadata)))

abbrev row_request : RequestRow → ControlRequest
row_request (zero, (t, (p, m))) = ControlRequest.status
row_request (suc zero, (t, (p, m))) = ControlRequest.nodes
row_request (suc (suc zero), (t, (p, m))) = ControlRequest.shutdown
row_request (suc (suc (suc zero)), (t, (p, m))) = ControlRequest.subscribe
row_request (suc (suc (suc (suc zero))), (t, (p, m))) = ControlRequest.join t
row_request (suc (suc (suc (suc (suc zero)))), (t, (p, m))) = ControlRequest.leave t
row_request (suc (suc (suc (suc (suc (suc zero))))), (t, (p, m))) = ControlRequest.unregister t
row_request (suc (suc (suc (suc (suc (suc (suc zero)))))), (t, (p, m))) = ControlRequest.lookup t
row_request (suc (suc (suc (suc (suc (suc (suc (suc k))))))), (t, (p, m))) =
    ControlRequest.register t p m

row_request-request_row : (r : ControlRequest) → row_request (request_row r) ≡ r
row_request-request_row ControlRequest.status = refl
row_request-request_row ControlRequest.nodes = refl
row_request-request_row ControlRequest.shutdown = refl
row_request-request_row ControlRequest.subscribe = refl
row_request-request_row (ControlRequest.join addr) = refl
row_request-request_row (ControlRequest.leave addr) = refl
row_request-request_row (ControlRequest.unregister name) = refl
row_request-request_row (ControlRequest.lookup name) = refl
row_request-request_row (ControlRequest.register name port metadata) = refl

pub request_coding : Coding ControlRequest
request_coding =
    via request_row row_request row_request-request_row
      (pair number (pair string (pair number map_coding)))

abbrev to_list {ℓ} : {A : Type ℓ} → Option A → List A
to_list none = []
to_list (some a) = a ∷ []

abbrev head {ℓ} : {A : Type ℓ} → List A → Option A
head [] = none
head (a ∷ as') = some a

head-to_list : (o : Option ℕ) → head (to_list o) ≡ o
head-to_list none = refl
head-to_list (some a) = refl

option : Coding (Option ℕ)
option = via to_list head head-to_list (list number)

abbrev truth : Bool → ℕ
truth true = 1
truth false = 0

abbrev of_truth : ℕ → Bool
of_truth zero = false
of_truth (suc n) = true

of_truth-truth : (b : Bool) → of_truth (truth b) ≡ b
of_truth-truth true = refl
of_truth-truth false = refl

bool : Coding Bool
bool = via truth of_truth of_truth-truth number

service : Coding ServiceEntry
service =
    via (λ (e : ServiceEntry). (e.name, (e.node_id, (e.host, (e.port, e.metadata)))))
      (λ t. record {
        name = t.0;
        node_id = t.1.0;
        host = t.1.1.0;
        port = t.1.1.1.0;
        metadata = t.1.1.1.1;
      })
      (λ e. refl) (pair string (pair string (pair string (pair number map_coding))))

node : Coding (NodeInfoResponse toy)
node =
    via
      (λ (n : NodeInfoResponse toy). (
        (n.node_id, (n.addr, (n.joined_at, n.metadata))),
        (n.services, (n.phi, (n.last_seen_at, n.is_local))),
      ))
      (λ t. record {
        node_id = t.0.0;
        addr = t.0.1.0;
        joined_at = t.0.1.1.0;
        metadata = t.0.1.1.1;
        services = t.1.0;
        phi = t.1.1.0;
        last_seen_at = t.1.1.1.0;
        is_local = t.1.1.1.1;
      })
      (λ n. refl)
      (pair (pair string (pair string (pair number map_coding)))
        (pair (list service) (pair option (pair option bool))))

-- A tag, two texts, two numbers, nodes and services.
abbrev ResponseRow : Type 0
ResponseRow =
    ℕ × ((String × String) × ((ℕ × ℕ) × (List (NodeInfoResponse toy) × List ServiceEntry)))

abbrev response_row : ControlResponse toy → ResponseRow
response_row ControlResponse.ok = (0, (("", ""), ((0, 0), ([], []))))
response_row (ControlResponse.error message) = (1, ((message, ""), ((0, 0), ([], []))))
response_row (ControlResponse.status id addr p n) = (2, ((id, addr), ((p, n), ([], []))))
response_row (ControlResponse.nodes ns) = (3, (("", ""), ((0, 0), (ns, []))))
response_row (ControlResponse.services es) = (4, (("", ""), ((0, 0), ([], es))))
response_row (ControlResponse.event MembershipEvent.node_joined id addr) =
    (5, ((id, addr), ((0, 0), ([], []))))
response_row (ControlResponse.event MembershipEvent.node_left id addr) =
    (6, ((id, addr), ((0, 0), ([], []))))

abbrev row_response : ResponseRow → ControlResponse toy
row_response (zero, r) = ControlResponse.ok
row_response (suc zero, ((t, u), r)) = ControlResponse.error t
row_response (suc (suc zero), ((t, u), ((p, n), r))) = ControlResponse.status t u p n
row_response (suc (suc (suc zero)), (tu, (pn, (ns, es)))) = ControlResponse.nodes ns
row_response (suc (suc (suc (suc zero))), (tu, (pn, (ns, es)))) = ControlResponse.services es
row_response (suc (suc (suc (suc (suc zero)))), ((t, u), r)) =
    ControlResponse.event MembershipEvent.node_joined t u
row_response (suc (suc (suc (suc (suc (suc k))))), ((t, u), r)) =
    ControlResponse.event MembershipEvent.node_left t u

row_response-response_row : (r : ControlResponse toy) → row_response (response_row r) ≡ r
row_response-response_row ControlResponse.ok = refl
row_response-response_row (ControlResponse.error message) = refl
row_response-response_row (ControlResponse.status id addr p n) = refl
row_response-response_row (ControlResponse.nodes ns) = refl
row_response-response_row (ControlResponse.services es) = refl
row_response-response_row (ControlResponse.event MembershipEvent.node_joined id addr) = refl
row_response-response_row (ControlResponse.event MembershipEvent.node_left id addr) = refl

pub response_coding : Coding (ControlResponse toy)
response_coding = via response_row row_response row_response-response_row (
    pair number
      (pair (pair string string) (pair (pair number number) (pair (list node) (list service)))))

module _ {A : Type 0} (coding : Coding A) where
  abbrev text : A → String
  text a = String.◌∷◌ "{" (coding.put a "}")

  abbrev from_text : String → Option A
  from_text String.[] = none
  from_text (String.◌∷◌ c s) = elim (coding.get s) [ none ↦ none | some r ↦ some r.0 ]

  pub from_text-text : (a : A) → from_text (text a) ≡ some a
  from_text-text a = ap (λ o. elim o [ none ↦ none | some r ↦ some r.0 ]) (coding.get-put a "}")

  pub text-IsLine : (a : A) → IsLine (text a)
  unfolding trim
  text-IsLine a =
      let fine : IsFine (text a) =
        IsFine-cons "{" _ refl (coding.put-IsFine a "}" (refl, refl, refl)) in
      (fine.0, ap trim_start fine.1)

abbrev pub codec : LineCodec toy
codec = record {
  request_text = text request_coding;
  request_from_str = from_text request_coding;
  response_text = text response_coding;
  response_from_str = from_text response_coding;
  request_text-IsLine = text-IsLine request_coding;
  response_text-IsLine = text-IsLine response_coding;
  request_from_str-text = λ r _. from_text-text request_coding r;
  response_from_str-text = λ r _. from_text-text response_coding r;
}

abbrev is_bob : Beacon toy → Bool
is_bob b = (b.node_id == "bob") && (b.listen_addr == "10.0.0.2:4369")

abbrev pub bob_beacon : Beacon toy
bob_beacon = record { node_id = "bob"; listen_addr = "10.0.0.2:4369" }

abbrev bob_from_slice : List ℕ → Option (Beacon toy)
bob_from_slice [] = none
bob_from_slice (b ∷ bs) = some bob_beacon

is_bob-bob_beacon : (b : Beacon toy) → is_bob b ≡ true → bob_beacon ≡ b
is_bob-bob_beacon b h =
    ap₂ (λ id addr. record { node_id = id; listen_addr = addr })
      (sym ((eq_iff b.node_id "bob").0 (ground (arith, h))))
      (sym ((eq_iff b.listen_addr "10.0.0.2:4369").0 (ground (arith, h))))

pub bob_from_slice-bob :
    (b : Beacon toy) (bytes : List ℕ)
    → (if is_bob b then some (7 ∷ []) else none) ≡ some bytes
    → bob_from_slice bytes ≡ some b
bob_from_slice-bob b [] h = absurd (ground (arith, h))
bob_from_slice-bob b (x ∷ bytes) h = ap some (is_bob-bob_beacon b (ground (arith, h)))

-- Bytes for the beacon of one node.
abbrev pub beacons : BeaconCodec toy
beacons = record {
  to_vec = λ b. if is_bob b then some (7 ∷ []) else none;
  from_slice = bob_from_slice;
  from_slice-to_vec = bob_from_slice-bob;
}
