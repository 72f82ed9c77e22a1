-- ===== src/Discovery/Azure/Machines.antt =====
-- What crates/pmd-azure/src/plugin.rs reports.
use pmd.Prelude.{
  ℕ, String, ◌≡◌, refl, sym, ◌∙◌, Option, none, some, List, [], ◌∷◌, ◌++◌, filter_map, arith, ◌==◌,
  eq_iff, eq_refl, if◌then◌else◌, Bool-cases, inl, inr,
}
use mathlib.Core.List.{append_assoc, append-nil}
use pmd.Prelude.Sets.{contains}
use pmd.Platform.{Platform}
use pmd.Discovery.{DiscoveryContext}
use pmd.Discovery.News.{firsts, Agree, Agree-own, Agree-insert_new}
use pmd.Discovery.Azure.{
  AzureTagPlugin, InstanceMetadata, Poll, Session, local_ip, address, report, report_all, sent_to,
  answer, on_answer, run, start,
}

module _ (P : Platform) where
  abbrev name : String → String
  name ip = ip

  abbrev to_list : Option (List String) → List String
  to_list none = []
  to_list (some ips) = ips

  -- The addresses that the answers name before the plugin is stopped, in their order.
  abbrev pub answers : AzureTagPlugin → InstanceMetadata → List Poll → List String
  answers p i [] = []
  answers p i (poll ∷ polls) =
      let later = to_list (answer P p i poll) ++ answers p i polls in
      if poll.running then later else []

  report-Agree :
      (port : ℕ) (own ip : String) (s : Session P) (earlier : List String)
      → Agree own s.known_peers earlier
      → Agree own (report P port own ip s).known_peers (ip ∷ earlier)
  unfolding report
  report-Agree port own ip s earlier agree k ne = ground (
    arith,
    agree k ne,
    Agree-own own s.known_peers earlier ip agree,
    Agree-insert_new own s.known_peers earlier ip agree k ne,
    eq_iff ip own,
    eq_iff ip k,
    eq_iff k own,
    eq_refl ip,
  )

  sent_to-append :
      (o : Option P.Addr) (channel rest : List P.Addr)
      → sent_to P o channel ++ rest ≡ channel ++ elim o [ none ↦ rest | some addr ↦ addr ∷ rest ]
  sent_to-append none channel rest = refl
  sent_to-append (some addr) channel rest = append_assoc channel (addr ∷ []) rest

  report-firsts :
      (port : ℕ) (own ip : String) (s : Session P) (earlier : List String) (rest : List String)
      → Agree own s.known_peers earlier
      → (report P port own ip s).discovered_tx
          ++ filter_map (address P port) (firsts name own (ip ∷ earlier) rest)
        ≡ s.discovered_tx ++ filter_map (address P port) (firsts name own earlier (ip ∷ rest))
  unfolding report
  report-firsts port own ip s earlier rest agree = elim (Bool-cases (ip == own)) [
    | inl own_true ↦ rw own_true
    | inr own_false ↦ elim (Bool-cases (contains ip s.known_peers)) [
      | inl known ↦ rw (own_false, known, sym (agree ip own_false) ∙ known)
      | inr fresh ↦
          rw (own_false, fresh, sym (agree ip own_false) ∙ fresh)
            (sent_to-append (address P port ip) s.discovered_tx
              (filter_map (address P port) (firsts name own (ip ∷ earlier) rest)))
    ]
  ]

  report_all-firsts :
      (port : ℕ) (own : String) (ips : List String) (s : Session P) (earlier : List String)
      → Agree own s.known_peers earlier
      → (later : List String) × (Agree own (report_all P port own ips s).known_peers later)
        × ((rest : List String)
            → (report_all P port own ips s).discovered_tx
                ++ filter_map (address P port) (firsts name own later rest)
              ≡ s.discovered_tx
                ++ filter_map (address P port) (firsts name own earlier (ips ++ rest)))
  unfolding report_all
  report_all-firsts port own [] s earlier agree = (earlier, agree, λ rest. refl)
  report_all-firsts port own (ip ∷ ips) s earlier agree =
      let (later, agree_later, e) =
        report_all-firsts port own ips (report P port own ip s) (ip ∷ earlier)
          (report-Agree port own ip s earlier agree) in
      (later, agree_later, λ rest. e rest ∙ report-firsts port own ip s earlier (ips ++ rest) agree)

  on_answer-firsts :
      (port : ℕ) (own : String) (o : Option (List String)) (s : Session P) (earlier : List String)
      → Agree own s.known_peers earlier
      → (later : List String) × (Agree own (on_answer P port own o s).known_peers later)
        × ((rest : List String)
            → (on_answer P port own o s).discovered_tx
                ++ filter_map (address P port) (firsts name own later rest)
              ≡ s.discovered_tx
                ++ filter_map (address P port) (firsts name own earlier (to_list o ++ rest)))
  unfolding on_answer
  on_answer-firsts port own none s earlier agree = (earlier, agree, λ rest. refl)
  on_answer-firsts port own (some ips) s earlier agree =
      report_all-firsts port own ips s earlier agree

  run-firsts :
      (p : AzureTagPlugin) (i : InstanceMetadata) (polls : List Poll) (s : Session P)
      (earlier : List String)
      → Agree (local_ip i) s.known_peers earlier
      → (run P p i polls s).discovered_tx
        ≡ s.discovered_tx
          ++ filter_map
              (address P p.pmd_port)
              (firsts name (local_ip i) earlier (answers p i polls))
  unfolding run
  run-firsts p i [] s earlier agree = sym (append-nil s.discovered_tx)
  run-firsts p i (poll ∷ polls) s earlier agree = elim (Bool-cases poll.running) [
    | inl on ↦
        let (later, agree_later, e) =
          on_answer-firsts p.pmd_port (local_ip i) (answer P p i poll) s earlier agree in
        rw on (
          run-firsts p i polls (on_answer P p.pmd_port (local_ip i) (answer P p i poll) s) later
            agree_later
          ∙ e (answers p i polls))
    | inr off ↦ rw off (sym (append-nil s.discovered_tx))
  ]

  -- On a machine with metadata the plugin reports, behind what was sent to the channel before, each
  -- address other than the machine's own that the answers name before it is stopped: once, in the
  -- order in which they are named first, with the daemons' port, and if it parses. Turns without an
  -- answer are passed over.
  pub start-addresses :
      (p : AzureTagPlugin) (i : InstanceMetadata) (ctx : DiscoveryContext P) (polls : List Poll)
      → (s : Session P) × (start P p (some i) ctx polls ≡ some s)
        × (s.discovered_tx
            ≡ ctx.discovered_tx
              ++ filter_map
                  (address P p.pmd_port)
                  (firsts name (local_ip i) [] (answers p i polls)))
  unfolding start
  start-addresses p i ctx polls =
      let s0 : Session P = record { known_peers = []; discovered_tx = ctx.discovered_tx } in
      (run P p i polls s0, refl, run-firsts p i polls s0 [] (λ k ne. refl))
