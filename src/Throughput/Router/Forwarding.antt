-- ===== src/Throughput/Router/Forwarding.antt =====
-- Who receives what the router forwards.
use zenoh_perf.Base.{
  ℕ, zero, suc, ◌+◌, ◌≤◌, ◌≡◌, ap, ◌∙◌, sym, false, some, List, [], ◌∷◌, ◌++◌, arith, ◌==◌,
  if◌then◌else◌, get_elem?, occurrences, occurrences-cons, occurrences-nil,
}
use zenoh_perf.Throughput.Router.{
  SlabLib, Entries, keys, values, RouterState, new_unicast, handle_message, connect_all, lookup,
  forward_present, lookup_middle, occurrences_middle,
}

-- A key that is not in the table is not that of an entry.
lookup_absent :
    (k j t : ℕ) (table : Entries)
    → occurrences k (keys table) ≡ 0
    → lookup j table ≡ some t
    → (k == j) ≡ false
unfolding lookup
lookup_absent k j t [] h e = absurd (cc)
lookup_absent k j t ((i, u) ∷ table) h e =
    ground (arith, occurrences-cons k i (keys table), lookup_absent k j t table)

middle_key :
    (k t j : ℕ) (before after : Entries)
    → occurrences k (keys (before ++ after)) ≡ 0
    → occurrences j (keys (before ++ after)) ≤ 1
    → occurrences j (keys (before ++ (k, t) ∷ after)) ≤ 1
middle_key k t j before after unused one =
    ground (arith, occurrences_middle (λ (e : ℕ × ℕ). e.0) j (k, t) before after)

-- The handlers' indices after an insertion.
newest :
    (k t : ℕ) (handlers before after : Entries) (i j u : ℕ)
    → occurrences k (keys (before ++ after)) ≡ 0
    → ((i : ℕ) → get_elem? handlers i ≡ some (j, u) → lookup j (before ++ after) ≡ some u)
    → get_elem? ((k, t) ∷ handlers) i ≡ some (j, u)
    → (if k == j then some t else lookup j (before ++ after)) ≡ some u
newest k t handlers before after zero j u unused old h = ground arith
newest k t handlers before after (suc i) j u unused old h =
    ground (arith, old i h, lookup_absent k j u (before ++ after) unused (old i h))

module _ (lib : SlabLib) where
  open lib use {Slab, new, insert, iter}

  -- The table after some connections: its keys differ, its transports are those connected, and it
  -- holds the transport of each handler at the handler's index.
  record Inv (ts : List ℕ) (s : RouterState lib) : Type 0 where
    differ : (k : ℕ) → occurrences k (keys (iter s.table)) ≤ 1
    held : (x : ℕ) → occurrences x (values (iter s.table)) ≡ occurrences x ts
    indexed : (i k t : ℕ) → get_elem? s.handlers i ≡ some (k, t) → lookup k (iter s.table) ≡ some t

  no_handler : {k t : ℕ} (i : ℕ) → get_elem? {A = ℕ × ℕ} [] i ≡ some (k, t) → ⊥
  no_handler i h = cc

  Inv-new : Inv [] (connect_all lib [])
  unfolding connect_all
  Inv-new = record {
    differ = λ k. rw lib.iter-new (omega (arith, occurrences-nil k));
    held = λ x. rw lib.iter-new;
    indexed = λ i k t h. absurd (no_handler i h);
  }

  Inv-new_unicast :
      (t : ℕ) (ts : List ℕ) (s : RouterState lib) → Inv ts s → Inv (t ∷ ts) (new_unicast lib t s)
  unfolding new_unicast
  Inv-new_unicast t ts s inv =
      let (before, after, old, now) = lib.iter-insert t s.table in
      let k : ℕ = (insert t s.table).0 in
      let unused : occurrences k (keys (before ++ after)) ≡ 0 =
        ap (λ e. occurrences k (keys e)) (sym old) ∙ lib.insert_unused t s.table in
      record {
        differ = λ j. rw now (middle_key k t j before after unused (rw old at (inv.differ j)));
        held = λ x. rw now (
            omega (
              arith,
              inv.held x,
              ap (λ e. occurrences x (values e)) old,
              occurrences_middle (λ (e : ℕ × ℕ). e.1) x (k, t) before after,
              occurrences-cons x t ts,
            ));
        indexed = λ i j u h. rw now (
            lookup_middle k j t before after unused
            ∙ newest k t s.handlers before after i j u unused
                (λ n e. rw old at (inv.indexed n j u e)) h);
      }

  Inv-connect_all : (ts : List ℕ) → Inv ts (connect_all lib ts)
  unfolding connect_all
  Inv-connect_all [] = Inv-new
  Inv-connect_all (t ∷ ts) = Inv-new_unicast t ts (connect_all lib ts) (Inv-connect_all ts)

  -- After any connections, a message that the handler of a transport receives is sent to every
  -- other transport as often as it is connected, and not to the handler's own connection.
  pub forwarded_to_others :
      (ts : List ℕ) (i index t : ℕ)
      → get_elem? (connect_all lib ts).handlers i ≡ some (index, t)
      → (x : ℕ)
      → occurrences x (handle_message lib index (connect_all lib ts)) + (if t == x then 1 else 0)
        ≡ occurrences x ts
  unfolding handle_message
  forwarded_to_others ts i index t h x =
      let inv = Inv-connect_all ts in
      forward_present index t x (iter (connect_all lib ts).table) inv.differ
        (inv.indexed i index t h)
      ∙ inv.held x
