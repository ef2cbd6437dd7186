-- ===== src/Service/Stored.antt =====
-- What engine/service.py keeps of its store: the logs and the task table.
use nutanix_hack.Prelude.{ℕ, ◌≡◌, subst, Bool, String, List, [], ◌∷◌, All}
use nutanix_hack.Queue.{Task, TaskKind, Env, Queue, idempotency_key}
use nutanix_hack.Queue.Invariant.{RowOk, IsSound}
use nutanix_hack.Queue.Steps.{History, History-IsSound}
use nutanix_hack.Service.Exec.{Keeps}
use nutanix_hack.Service.Store.{Store, Db}
use nutanix_hack.Service.Gapless.{IsLogged}
use nutanix_hack.Service.Logged.{logs, reap_expired_leases-IsLogged}
use nutanix_hack.Service.Kept.{Basics}
use nutanix_hack.Service.Transacts.{Reaches, transacts}
use nutanix_hack.Service.Recovers.{reap_expired_leases-Reaches}
use nutanix_hack.Service.Reaper.{reap_expired_leases}

-- Logs without gaps, and a sound task table.
pub record IsStored (env : Env) (s : Store) : Type 0 where
  pub logged : IsLogged s
  pub queued : IsSound env s.queue

both :
    {A : Type 0} (env : Env) (m : Db A)
    → Keeps IsLogged m
    → ((start : Queue) → IsSound env start → Keeps (Reaches env start) m)
    → Keeps (IsStored env) m
both env m k r = record {
  at = λ s h. record {
    logged = k.at s h.logged;
    queued = History-IsSound env s.queue h.queued ((r s.queue h.queued).at s History.here);
  };
}

pub stored : (env : Env) → Basics env (IsStored env)
stored env =
    let l = logs env in
    let t = λ (q : Queue) (sound : IsSound env q). transacts env q in
    record {
      created = λ rid spec input.
          both env _ (l.created rid spec input) (λ q s. (t q s).created rid spec input);
      appended = λ rid type sid p.
          both env _ (l.appended rid type sid p) (λ q s. (t q s).appended rid type sid p);
      synced = λ rid spec c. both env _ (l.synced rid spec c) (λ q s. (t q s).synced rid spec c);
      enqueued = λ rid sid kind attempt run_after.
          both env _ (l.enqueued rid sid kind attempt run_after)
            (λ q s. (t q s).enqueued rid sid kind attempt run_after);
      claimed = λ locked worker now.
          both env _ (l.claimed locked worker now) (λ q s. (t q s).claimed locked worker now);
      finished = λ id. both env _ (l.finished id) (λ q s. (t q s).finished id);
      finished_owned = λ id worker.
          both env _ (l.finished_owned id worker) (λ q s. (t q s).finished_owned id worker);
    }

pub reap_expired_leases-IsStored :
    (n : ℕ) (env : Env) (locked : ℕ → Bool) (now : ℕ)
    → Keeps (IsStored env) (reap_expired_leases n env locked now)
reap_expired_leases-IsStored n env locked now =
    both env _ (reap_expired_leases-IsLogged n env locked now)
      (λ q sound. reap_expired_leases-Reaches env q sound n locked now)

-- Of the settings, only the digest of the keys matters.
module _ (env other : Env) (same : env.digest ≡ other.digest) where
  All-RowOk : (n : ℕ) (rows : List Task) → All (RowOk env n) rows → All (RowOk other n) rows
  unfolding idempotency_key
  All-RowOk n [] h = tt
  All-RowOk n (t ∷ ts) h = (
    record {
      below = h.0.below;
      keyed =
          subst
            (λ (d : String → String → TaskKind → ℕ → String).
              t.idempotency_key ≡ d t.run t.step_id t.kind t.attempt)
            same h.0.keyed;
      leased = h.0.leased;
      unleased = h.0.unleased;
    },
    All-RowOk n ts h.1,
  )

  pub same_digest-IsStored : (s : Store) → IsStored env s → IsStored other s
  same_digest-IsStored s h = record {
    logged = h.logged;
    queued = record {
      ids = h.queued.ids;
      keys = h.queued.keys;
      rows_ok = All-RowOk s.queue.next_id s.queue.rows h.queued.rows_ok;
    };
  }
