-- ===== src/Server/Cron/Clients/Visit.antt =====
-- One round of clientsCron of src/cache.c.
use jmeter_on_k8s.Prelude.{
  ℕ, suc, ◌≤◌, ◌<◌, ◌^◌, ◌≡◌, refl, ◌∙◌, Bool, true, false, ◌&&◌, not, Option, some, List, ◌∷◌,
  ◌++◌, ◌==◌, ltb, ◌>>=◌, length, Bool-cases, inl, inr, arith,
}
use jmeter_on_k8s.Adlist.Links.{Holds}
use jmeter_on_k8s.Server.Cron.Clients.{
  CronClient, CronConfig, CronState, ClientCalls, is_idle, trimmed, store_client, handle_blocked,
  clients_cron_handle_timeout, clients_cron_resize_query_buffer, visit_client,
}

abbrev pub kept : Bool → ℕ × ℕ → List (ℕ × ℕ) → List (ℕ × ℕ)
kept true x e = e
kept false x e = x ∷ e

pub kept-append : (b : Bool) (x : ℕ × ℕ) (m t : List (ℕ × ℕ)) → kept b x (m ++ t) ≡ kept b x m ++ t
kept-append true x m t = refl
kept-append false x m t = refl

pub length-kept : (b : Bool) (x : ℕ × ℕ) (e : List (ℕ × ℕ)) → length (kept b x e) ≤ suc (length e)
length-kept true x e = omega arith
length-kept false x e = omega arith

module _ {W : Type 0} (cfg : CronConfig) where
  -- Whether the client at p is idle; `none` if there is no client.
  abbrev pub status : CronState W → ℕ → Option Bool
  status s p = s.store p >>= λ c. some (is_idle cfg c)

  -- A step that succeeds, leaves the list of clients at e, and no client but p idler than before.
  abbrev pub Leaves : Option (CronState W) → CronState W → ℕ → List (ℕ × ℕ) → Type 0
  Leaves run s p e =
      (s' : CronState W) × (run ≡ some s')
      × Holds s'.heap s'.clients e
      × ((q : ℕ) → (q == p) ≡ false → status s' q ≡ status s q)

  -- As for Leaves, and the client at p stays.
  abbrev pub Stayed : CronState W → ℕ → List (ℕ × ℕ) → CronState W → Type 0
  Stayed s p e s' =
      Holds s'.heap s'.clients e
      × ((q : ℕ) → (q == p) ≡ false → status s' q ≡ status s q)
      × ((c : CronClient) → s.store p ≡ some c → (c' : CronClient) × (s'.store p ≡ some c'))

  abbrev pub Stays : Option (CronState W) → CronState W → ℕ → List (ℕ × ℕ) → Type 0
  Stays run s p e = (s' : CronState W) × (run ≡ some s') × Stayed s p e s'

-- What clientsCron relies on: freeClient takes the client at the head out of the list, the other
-- functions leave the list and the client in place, and none touches the idle time of another client.
pub record IsWellBehaved {W : Type 0} (calls : ClientCalls W) (cfg : CronConfig) : Type 0 where
  pub frees :
      (s : CronState W) (a p : ℕ) (e : List (ℕ × ℕ))
      → Holds s.heap s.clients ((a, p) ∷ e)
      → length ((a, p) ∷ e) < 2 ^ 64
      → Leaves cfg (calls.free_client s p) s p e
  pub replies :
      (s : CronState W) (p : ℕ) (e : List (ℕ × ℕ))
      → Holds s.heap s.clients e
      → Stays cfg (calls.reply_timed_out s p) s p e
  pub unblocks :
      (s : CronState W) (p : ℕ) (e : List (ℕ × ℕ))
      → Holds s.heap s.clients e
      → Stays cfg (calls.unblock_client s p) s p e
  pub redirects :
      (s : CronState W) (p : ℕ) (e : List (ℕ × ℕ))
      → Holds s.heap s.clients e
      → (b : Bool) × (s' : CronState W) × (calls.cluster_redirect s p ≡ some (b, s'))
        × Stayed cfg s p e s'

module _ {W : Type 0} (calls : ClientCalls W) (cfg : CronConfig)
    (ok : IsWellBehaved calls cfg) where
  Stayed-then :
      (s s1 : CronState W) (p : ℕ) (e : List (ℕ × ℕ))
      → Stayed cfg s p e s1
      → (s2 : CronState W) → Stayed cfg s1 p e s2
      → Stayed cfg s p e s2
  Stayed-then s s1 p e (l1, f1, g1) s2 (l2, f2, g2) =
      (l2, λ q d. f2 q d ∙ f1 q d, λ c at. let (c1, at1) = g1 c at in g2 c1 at1)

  handle_blocked_lem :
      (s : CronState W) (p : ℕ) (c : CronClient) (e : List (ℕ × ℕ))
      → Holds s.heap s.clients e
      → Stays cfg (handle_blocked calls cfg s p c) s p e
  unfolding handle_blocked
  handle_blocked_lem s p c e l =
      elim (Bool-cases (not (c.timeout == 0) && ltb c.timeout cfg.now_ms)) [
        | inl t ↦
            let (s1, run1, st1) = ok.replies s p e l in
            let (s2, run2, st2) = ok.unblocks s1 p e st1.0 in
            (s2, rw t (rw (run1, ◌>>=◌) run2), Stayed-then s s1 p e st1 s2 st2)
        | inr t ↦ elim (Bool-cases cfg.cluster_enabled) [
          | inl u ↦
              let (b, s1, run1, st1) = ok.redirects s p e l in
              elim (Bool-cases b) [
                | inl v ↦
                    let (s2, run2, st2) = ok.unblocks s1 p e st1.0 in
                    (
                      s2,
                      rw t (rw u (rw (run1, ◌>>=◌) (rw v run2))),
                      Stayed-then s s1 p e st1 s2 st2,
                    )
                | inr v ↦ (s1, rw t (rw u (rw (run1, ◌>>=◌) (rw v refl))), st1)
              ]
          | inr u ↦ (s, rw t (rw u refl), (l, λ q d. refl, λ c at. (c, at)))
        ]
      ]

  handle_timeout_lem :
      (s : CronState W) (a p : ℕ) (c : CronClient) (e : List (ℕ × ℕ))
      → Holds s.heap s.clients ((a, p) ∷ e)
      → length ((a, p) ∷ e) < 2 ^ 64
      → s.store p ≡ some c
      → ((s' : CronState W) × (clients_cron_handle_timeout calls cfg s p ≡ some (is_idle cfg c, s'))
          × Holds s'.heap s'.clients (kept (is_idle cfg c) (a, p) e)
          × ((q : ℕ) → (q == p) ≡ false → status cfg s' q ≡ status cfg s q)
          × ((is_idle cfg c ≡ false) → (c' : CronClient) × (s'.store p ≡ some c')))
  unfolding clients_cron_handle_timeout
  handle_timeout_lem s a p c e l small at = elim (Bool-cases (is_idle cfg c)) [
    | inl i ↦
        let (s1, run, l1, f) = ok.frees s a p e l small in
        (s1, rw (at, ◌>>=◌) (rw i (rw (run, ◌>>=◌) refl)), rw i l1, f, λ j. absurd (ground arith))
    | inr i ↦ elim (Bool-cases c.flags.blocked) [
      | inl b ↦
          let (s1, run, (l1, f, g)) = handle_blocked_lem s p c ((a, p) ∷ e) l in
          (s1, rw (at, ◌>>=◌) (rw i (rw (run, ◌>>=◌) (rw b refl))), rw i l1, f, λ j. g c at)
      | inr b ↦ (s, rw (at, ◌>>=◌) (rw i (rw b refl)), rw i l, λ q d. refl, λ j. (c, at))
    ]
  ]

  pub visit_client_lem :
      (s : CronState W) (a p : ℕ) (c : CronClient) (e : List (ℕ × ℕ))
      → Holds s.heap s.clients ((a, p) ∷ e)
      → length ((a, p) ∷ e) < 2 ^ 64
      → s.store p ≡ some c
      → Leaves cfg (visit_client calls cfg s p) s p (kept (is_idle cfg c) (a, p) e)
  unfolding visit_client clients_cron_resize_query_buffer
  visit_client_lem s a p c e l small at =
      let (s1, run, l1, f, g) = handle_timeout_lem s a p c e l small at in
      elim (Bool-cases (is_idle cfg c)) [
        | inl i ↦ (s1, rw (run, ◌>>=◌) (rw i refl), l1, f)
        | inr i ↦
            let (c1, at1) = g i in
            (
              record s1 { store = store_client s1.store p (trimmed cfg c1) },
              rw (run, ◌>>=◌) (rw i (rw (at1, ◌>>=◌) refl)),
              l1,
              λ q d. rw d (f q d),
            )
      ]
