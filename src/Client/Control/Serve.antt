-- ===== src/Client/Control/Serve.antt =====
-- `serve_master` of crates/sqsh/src/control.rs: the count of clients, and the end after idling.
-- Handlers are tasks of their own, which send a message on a queue when they end.
use squish.Client.ControlPersist.{idle_timeout, ControlPersist, timeout, disabled, forever}
use squish.Prelude.{ℕ, ◌≡◌, some, arith, ◌+◌, ◌<◌, ◌-◌, refl, suc, zero}

pub data Stage : Type 0 where
  serving closed broken : Stage

-- `active_clients` is the loop's count; `handlers` the tasks that run; `queue` the messages of
-- those that have ended.
pub record Master : Type 0 where
  pub active_clients : ℕ
  pub handlers : ℕ
  pub queue : ℕ
  pub stage : Stage

-- Before the loop.
abbrev pub new_master : Master
new_master = record { active_clients = 0; handlers = 0; queue = 0; stage = serving }

-- What the loop does, in either of its two `select!`, and what the tasks do meanwhile.
pub data Step (persist : ControlPersist) : Master → Master → Type 0 where
  accepted :
      (m : Master)
      → m.stage ≡ serving
      → Step persist m
          (record m { active_clients = m.active_clients + 1; handlers = m.handlers + 1 })
  accept_failed : (m : Master) → m.stage ≡ serving → Step persist m (record m { stage = broken })
  -- `sleep(timeout)`, which only the first `select!` has.
  idle_ended :
      (m : Master) (timeout : ℕ)
      → m.stage ≡ serving
      → m.active_clients ≡ 0
      → idle_timeout persist ≡ some timeout
      → Step persist m (record m { stage = closed })
  -- `done_rx.recv()`, which only the second has, under its guard.
  done_received :
      (m : Master)
      → m.stage ≡ serving
      → 0 < m.active_clients
      → 0 < m.queue
      → Step persist m (record m { active_clients = m.active_clients - 1; queue = m.queue - 1 })
  handler_ended :
      (m : Master)
      → 0 < m.handlers
      → Step persist m (record m { handlers = m.handlers - 1; queue = m.queue + 1 })

-- What the loop reaches.
pub data Reaches (persist : ControlPersist) : Master → Type 0 where
  begins : Reaches persist new_master
  goes : {m n : Master} → Reaches persist m → Step persist m n → Reaches persist n

-- What holds in every state that is reached.
pub record IsServed (persist : ControlPersist) (m : Master) : Type 0 where
  pub counted : m.active_clients ≡ m.handlers + m.queue
  pub not_below : 0 < m.queue → 0 < m.active_clients
  pub unused : m.stage ≡ closed → (m.handlers ≡ 0) × (m.queue ≡ 0)
  pub timed : m.stage ≡ closed → (seconds : ℕ) × (persist ≡ timeout seconds)

idle_timeout-some :
    (persist : ControlPersist) {seconds : ℕ}
    → idle_timeout persist ≡ some seconds
    → (s : ℕ) × (persist ≡ timeout s)
idle_timeout-some disabled h = cc
idle_timeout-some forever h = cc
idle_timeout-some (timeout s) h = (s, refl)

module _ (persist : ControlPersist) where
  abbrev IsInvariant : Master → Type 0
  IsInvariant m =
      (m.active_clients ≡ m.handlers + m.queue)
      × (m.stage ≡ closed → (m.active_clients ≡ 0) × ((s : ℕ) × (persist ≡ timeout s)))

  Step-IsInvariant : {m n : Master} → Step persist m n → IsInvariant m → IsInvariant n
  Step-IsInvariant (accepted m s) (c, i) = (omega (arith, c), λ q. cc (s, q))
  Step-IsInvariant (accept_failed m s) (c, i) = (c, λ q. cc)
  Step-IsInvariant (idle_ended m t s z p) (c, i) = (c, λ q. (z, idle_timeout-some persist p))
  Step-IsInvariant (done_received m s a b) (c, i) = (omega (arith, c, a, b), λ q. cc (s, q))
  Step-IsInvariant (handler_ended m a) (c, i) =
      (omega (arith, c, a), λ q. let (z, t) = i q in absurd (omega (arith, a, c, z)))

  Reaches-IsInvariant : {m : Master} → Reaches persist m → IsInvariant m
  Reaches-IsInvariant begins = (refl, λ q. cc)
  Reaches-IsInvariant (goes r step) = Step-IsInvariant step (Reaches-IsInvariant r)

  -- In every state that is reached: the count is the number of handlers that run and of those
  -- whose message waits, so that no message is taken from it at zero; and the master closes the
  -- connection only when no handler runs or waits, and only if a timeout is set.
  pub Reaches-IsServed : (m : Master) → Reaches persist m → IsServed persist m
  Reaches-IsServed m r =
      let (c, i) = Reaches-IsInvariant r in
      record {
        counted = c;
        not_below = λ q. omega (arith, c, q);
        unused = λ q. let (z, t) = i q in (omega (arith, c, z), omega (arith, c, z));
        timed = λ q. (i q).1;
      }

  -- Several steps.
  pub data Leads : Master → Master → Type 0 where
    stays : (m : Master) → Leads m m
    then_goes : {m n o : Master} → Step persist m n → Leads n o → Leads m o

  drained_queue :
      (k : ℕ) (m : Master)
      → m.stage ≡ serving
      → m.queue ≡ k
      → m.active_clients ≡ k
      → m.handlers ≡ 0
      → (seconds : ℕ) → persist ≡ timeout seconds
      → (n : Master) × Leads m n × (n.stage ≡ closed)
  drained_queue zero m s q a z seconds p =
      let due : idle_timeout persist ≡ some seconds = rw p refl in
      (
        record m { stage = closed },
        then_goes (idle_ended m seconds s a due) (stays (record m { stage = closed })),
        refl,
      )
  drained_queue (suc k) m s q a z seconds p =
      let m' : Master = record m { active_clients = m.active_clients - 1; queue = m.queue - 1 } in
      let (n, l, c) = drained_queue k m' s (omega (arith, q)) (omega (arith, a)) z seconds p in
      (n, then_goes (done_received m s (omega (arith, a)) (omega (arith, q))) l, c)

  drained :
      (k : ℕ) (m : Master)
      → m.stage ≡ serving
      → m.handlers ≡ k
      → m.active_clients ≡ m.handlers + m.queue
      → (seconds : ℕ) → persist ≡ timeout seconds
      → (n : Master) × Leads m n × (n.stage ≡ closed)
  drained zero m s h c seconds p = drained_queue m.queue m s refl (omega (arith, c, h)) h seconds p
  drained (suc k) m s h c seconds p =
      let m' : Master = record m { handlers = m.handlers - 1; queue = m.queue + 1 } in
      let (n, l, e) = drained k m' s (omega (arith, h)) (omega (arith, c, h)) seconds p in
      (n, then_goes (handler_ended m (omega (arith, h))) l, e)

  -- A master with a timeout that goes on serving can always come to its end: from every state that
  -- is reached there are steps after which it has closed the connection.
  pub Reaches-closes :
      (m : Master) (seconds : ℕ)
      → Reaches persist m
      → m.stage ≡ serving
      → persist ≡ timeout seconds
      → (n : Master) × Leads m n × (n.stage ≡ closed)
  Reaches-closes m seconds r s p = drained m.handlers m s refl (Reaches-IsInvariant r).0 seconds p
