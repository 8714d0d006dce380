-- ===== src/Throughput/Subscriber.antt =====
-- The transport handlers of throughput/src/bin/t_sub_thr.rs and t_pubsub_thr.rs.
use zenoh_perf.Base.{
  ℕ, ◌+◌, ◌^◌, ◌<◌, ◌≡◌, refl, ap, ◌∙◌, Bool, true, false, List, [], ◌∷◌, arith, ltb, not,
  if◌then◌else◌, Outcome, panic, multicast,
}
use zenoh_perf.Throughput.Counter.{Counter, fresh, fetch_add, sum, Keeps}

-- `MySH`: the flag `active`, and how many monitoring tasks were spawned on the shared counter.
pub record MySh : Type 0 where
  pub active : Bool
  pub monitors : ℕ
  pub counter : Counter

-- `MySH::new` with a counter at 0.
abbrev pub new_sh : MySh
new_sh = record { active = false; monitors = 0; counter = fresh }

-- `new_unicast`: `active.swap(true)`, and a task if it was false.
unfoldable pub new_unicast : MySh → MySh
new_unicast sh =
    if not sh.active
    then record sh { active = true; monitors = sh.monitors + 1 }
    else record sh { active = true }

unfoldable pub new_multicast : MySh → Outcome MySh
new_multicast sh = panic multicast

-- `MyMH::handle_message`
unfoldable pub handle_message : MySh → MySh
unfolding fetch_add
handle_message sh = record sh { counter = fetch_add 1 sh.counter }

-- A second passes for each monitoring task; `on_second` is its reading of the counter.
readings : (Counter → Counter) → ℕ → Counter → Counter
readings on_second ℕ.zero c = c
readings on_second (ℕ.suc n) c = on_second (readings on_second n c)

pub data TransportEvent : Type 0 where
  connected : TransportEvent
  message : TransportEvent
  monitored : TransportEvent

unfoldable pub step : (Counter → Counter) → TransportEvent → MySh → MySh
unfolding new_unicast handle_message readings
step on_second connected sh = new_unicast sh
step on_second message sh = handle_message sh
step on_second monitored sh = record sh { counter = readings on_second sh.monitors sh.counter }

unfoldable pub run_transport : (Counter → Counter) → List TransportEvent → MySh → MySh
unfolding step
run_transport on_second [] sh = sh
run_transport on_second (e ∷ es) sh = run_transport on_second es (step on_second e sh)

abbrev pub messages_in : List TransportEvent → ℕ
messages_in [] = 0
messages_in (message ∷ es) = 1 + messages_in es
messages_in (connected ∷ es) = messages_in es
messages_in (monitored ∷ es) = messages_in es

abbrev pub connections_in : List TransportEvent → ℕ
connections_in [] = 0
connections_in (connected ∷ es) = 1 + connections_in es
connections_in (message ∷ es) = connections_in es
connections_in (monitored ∷ es) = connections_in es

-- One task once the flag is set, none before.
pub record Watched (sh : MySh) : Type 0 where
  pub one : sh.active ≡ true → sh.monitors ≡ 1
  pub zero_before : sh.active ≡ false → sh.monitors ≡ 0

step-Watched :
    (on_second : Counter → Counter) (e : TransportEvent) (sh : MySh)
    → Watched sh
    → Watched (step on_second e sh)
unfolding step
step-Watched on_second connected sh w = ground arith
step-Watched on_second message sh w = ground arith
step-Watched on_second monitored sh w = ground arith

total_of : Counter → ℕ
total_of c = c.count + sum c.printed

readings-total_of :
    (on_second : Counter → Counter)
    → Keeps on_second
    → (n : ℕ) (c : Counter) → total_of (readings on_second n c) ≡ total_of c
unfolding total_of readings
readings-total_of on_second keeps ℕ.zero c = refl
readings-total_of on_second keeps (ℕ.suc n) c =
    omega (arith, keeps (readings on_second n c), readings-total_of on_second keeps n c)

abbrev some_connection : Bool → ℕ → ℕ
some_connection active n = if active then 1 else if ltb 0 n then 1 else 0

run-monitors :
    (on_second : Counter → Counter) (es : List TransportEvent) (sh : MySh)
    → Watched sh
    → (run_transport on_second es sh).monitors ≡ some_connection sh.active (connections_in es)
unfolding run_transport
run-monitors on_second [] sh w = ground arith
run-monitors on_second (connected ∷ es) sh w =
    run-monitors on_second es (step on_second connected sh) (step-Watched on_second connected sh w)
    ∙ unfold step in ground arith
run-monitors on_second (message ∷ es) sh w =
    run-monitors on_second es (step on_second message sh) (step-Watched on_second message sh w)
    ∙ unfold step in ground arith
run-monitors on_second (monitored ∷ es) sh w =
    run-monitors on_second es (step on_second monitored sh) (step-Watched on_second monitored sh w)
    ∙ unfold step in ground arith

run-total_of :
    (on_second : Counter → Counter)
    → Keeps on_second
    → (es : List TransportEvent) (sh : MySh) → total_of sh.counter + messages_in es < 2 ^ 64
    → total_of (run_transport on_second es sh).counter ≡ total_of sh.counter + messages_in es
unfolding run_transport
run-total_of on_second keeps [] sh h = omega arith
run-total_of on_second keeps (connected ∷ es) sh h =
    let same : total_of (step on_second connected sh).counter ≡ total_of sh.counter =
      unfold step in ground arith in
    run-total_of on_second keeps es (step on_second connected sh) (omega (arith, same))
    ∙ ap (λ t. t + messages_in es) same
run-total_of on_second keeps (message ∷ es) sh h =
    let more : total_of (step on_second message sh).counter ≡ total_of sh.counter + 1 =
      unfold step total_of in ground arith in
    omega (
      arith,
      more,
      run-total_of on_second keeps es (step on_second message sh) (omega (arith, more)),
    )
run-total_of on_second keeps (monitored ∷ es) sh h =
    let same : total_of (step on_second monitored sh).counter ≡ total_of sh.counter =
      unfold step in readings-total_of on_second keeps sh.monitors sh.counter in
    run-total_of on_second keeps es (step on_second monitored sh) (omega (arith, same))
    ∙ ap (λ t. t + messages_in es) same

-- Whatever the order of connections, messages and seconds: one monitoring task runs as soon as there
-- has been a connection, however many there are, and each message is printed or still counted once.
pub subscriber_counts :
    (on_second : Counter → Counter)
    → Keeps on_second
    → (es : List TransportEvent) → messages_in es < 2 ^ 64
    → ((run_transport on_second es new_sh).monitors ≡ (if ltb 0 (connections_in es) then 1 else 0))
      × ((run_transport on_second es new_sh).counter.count
            + sum (run_transport on_second es new_sh).counter.printed
          ≡ messages_in es)
unfolding total_of
subscriber_counts on_second keeps es h = (
  run-monitors on_second es new_sh (record { one = λ e. cc; zero_before = λ e. refl }),
  omega (arith, run-total_of on_second keeps es new_sh (omega arith)),
)
