-- ===== src/Server/Cron/Clients/Correct.antt =====
-- What clientsCron of src/cache.c leaves of the list of clients.
use mathlib.Core.List.{append-nil, append_assoc}
use mathlib.Core.Option.{some-injective}
use mathlib.Core.Path.{subst}
use native.Mathlib.Nat.{div-le_self}
use jmeter_on_k8s.Prelude.{
  ℕ, suc, ◌*◌, ◌≤◌, ◌<◌, ◌^◌, ◌≡◌, refl, sym, ap, ◌∙◌, Bool, false, none, some, List, [], ◌∷◌, ◌++◌,
  ◌==◌, ◌>>=◌, length, length-append, Option-cases, ◌⊎◌, inl, inr, arith,
}
use jmeter_on_k8s.Adlist.{ListNode, node, Heap, AdList, list_rotate, load}
use jmeter_on_k8s.Adlist.Links.{Holds, first_or}
use jmeter_on_k8s.Adlist.Inside.{list_rotate_lem}
use jmeter_on_k8s.Adlist.Ends.{not_empty}
use jmeter_on_k8s.Server.Cron.Clients.{
  CronClient, CronConfig, CronState, ClientCalls, is_idle, cron_iterations, visit_client, cron_loop,
  clients_cron,
}
use jmeter_on_k8s.Server.Cron.Clients.Visit.{
  kept, kept-append, length-kept, status, IsWellBehaved, visit_client_lem,
}

-- At least 50 clients, or all there are, and never more rounds than clients.
cron_iterations_lem :
    (cfg : CronConfig) (n : ℕ)
    → (cron_iterations cfg n ≤ n) × ((50 ≤ cron_iterations cfg n) ⊎ (cron_iterations cfg n ≡ n))
unfolding cron_iterations
cron_iterations_lem cfg n = let e = div-le_self n (cfg.hz * 10) in ground arith

rotate_any :
    (h : Heap ℕ) (l : AdList ℕ) (s : List (ℕ × ℕ)) (a v : ℕ)
    → Holds h l (s ++ (a, v) ∷ [])
    → (h' : Heap ℕ) × (l' : AdList ℕ) × (list_rotate h l ≡ some (h', l')) × Holds h' l' ((a, v) ∷ s)
unfolding list_rotate
rotate_any h l [] a v ok = (h, l, rw ok.count refl, ok)
rotate_any h l ((b, w) ∷ s) a v ok = list_rotate_lem h l b w s a v ok

-- The entries of r from the last one to the first one.
abbrev pub backwards : List (ℕ × ℕ) → List (ℕ × ℕ)
backwards [] = []
backwards (x ∷ r) = backwards r ++ x ∷ []

-- The entries of r that are not idle, one after the other in front of m.
abbrev pub keep_onto : (ℕ → Bool) → List (ℕ × ℕ) → List (ℕ × ℕ) → List (ℕ × ℕ)
keep_onto idle [] m = m
keep_onto idle ((a, p) ∷ r) m = keep_onto idle r (kept (idle p) (a, p) m)

-- The clients of r are other ones than p.
abbrev OtherThan : ℕ → List (ℕ × ℕ) → Type 0
OtherThan p [] = Unit
OtherThan p ((a, q) ∷ r) = ((q == p) ≡ false) × OtherThan p r

abbrev pub AreDifferent : List (ℕ × ℕ) → Type 0
AreDifferent [] = Unit
AreDifferent ((a, p) ∷ r) = OtherThan p r × AreDifferent r

module _ {W : Type 0} (cfg : CronConfig) where
  -- The clients of r are there, and idle as `idle` says.
  abbrev pub AreAsIn : (ℕ → Bool) → CronState W → List (ℕ × ℕ) → Type 0
  AreAsIn idle s [] = Unit
  AreAsIn idle s ((a, p) ∷ r) = (status cfg s p ≡ some (idle p)) × AreAsIn idle s r

module _ {W : Type 0} (calls : ClientCalls W) (cfg : CronConfig)
    (ok : IsWellBehaved calls cfg) where
  status-some :
      (s : CronState W) (p : ℕ) (b : Bool)
      → status cfg s p ≡ some b
      → (c : CronClient) × (s.store p ≡ some c) × (is_idle cfg c ≡ b)
  status-some s p b e = elim (Option-cases (s.store p)) [
    | inl at ↦ absurd (grind arith)
    | inr (c, at) ↦
        (c, at, some-injective _ _ (sym (ap (λ o. o >>= λ c. some (is_idle cfg c)) at) ∙ e))
  ]

  AreAsIn-kept :
      (idle : ℕ → Bool) (s s' : CronState W) (p : ℕ) (r : List (ℕ × ℕ))
      → OtherThan p r
      → ((q : ℕ) → (q == p) ≡ false → status cfg s' q ≡ status cfg s q)
      → AreAsIn cfg idle s r
      → AreAsIn cfg idle s' r
  AreAsIn-kept idle s s' p [] d f as_in = tt
  AreAsIn-kept idle s s' p ((a, q) ∷ r) (d, ds) f (e, as_in) =
      (f q d ∙ e, AreAsIn-kept idle s s' p r ds f as_in)

  cron_loop_step :
      (n : ℕ) (s : CronState W) (h : Heap ℕ) (l : AdList ℕ) (s1 : CronState W) (x : ListNode ℕ)
      → (s.clients.len == 0) ≡ false
      → list_rotate s.heap s.clients ≡ some (h, l)
      → load h l.head ≡ some x
      → visit_client calls cfg (record s { heap = h; clients = l }) x.value ≡ some s1
      → cron_loop calls cfg (suc n) s ≡ cron_loop calls cfg n s1
  unfolding cron_loop
  cron_loop_step n s h l s1 x some_left rotated at visited =
      rw (some_left, cron_loop) (rw (rotated, ◌>>=◌) (rw (at, ◌>>=◌) (rw (visited, ◌>>=◌) refl)))

  cron_loop_lem :
      (idle : ℕ → Bool) (r m : List (ℕ × ℕ)) (s : CronState W)
      → Holds s.heap s.clients (m ++ backwards r)
      → length (m ++ backwards r) < 2 ^ 64
      → AreAsIn cfg idle s r
      → AreDifferent r
      → (s' : CronState W) × (cron_loop calls cfg (length r) s ≡ some s')
        × Holds s'.heap s'.clients (keep_onto idle r m)
  unfolding cron_loop
  cron_loop_lem idle [] m s l small as_in d =
      (s, refl, subst (Holds s.heap s.clients) (append-nil m) l)
  cron_loop_lem idle ((a, p) ∷ r) m s l small (e, as_in) (d, ds) =
      let order = sym (append_assoc m (backwards r) ((a, p) ∷ [])) in
      let n = ap length order ∙ length-append (m ++ backwards r) ((a, p) ∷ []) in
      let kept_it : kept (is_idle cfg (status-some s p (idle p) e).0) (a, p) (m ++ backwards r)
          ≡ kept (idle p) (a, p) m ++ backwards r =
        ap (λ b. kept b (a, p) (m ++ backwards r)) (status-some s p (idle p) e).2
        ∙ kept-append (idle p) (a, p) m (backwards r) in
      let (h, l1, run1, held) =
        rotate_any s.heap s.clients (m ++ backwards r) a p
          (subst (Holds s.heap s.clients) order l) in
      let (c, at, is_c) = status-some s p (idle p) e in
      let few : length ((a, p) ∷ (m ++ backwards r)) < 2 ^ 64 = omega (arith, small, n) in
      let s1 = record s { heap = h; clients = l1 } in
      let (s2, run2, held2, f) =
        visit_client_lem calls cfg ok s1 a p c (m ++ backwards r) held few at in
      let held3 : Holds s2.heap s2.clients (kept (idle p) (a, p) m ++ backwards r) =
        subst (Holds s2.heap s2.clients) kept_it held2 in
      let fewer : length (kept (idle p) (a, p) m ++ backwards r) < 2 ^ 64 = omega (
        arith,
        small,
        n,
        length-kept (idle p) (a, p) (m ++ backwards r),
        ap length (kept-append (idle p) (a, p) m (backwards r)),
      ) in
      let (s3, run3, held4) =
        cron_loop_lem idle r (kept (idle p) (a, p) m) s2 held3 fewer
          (AreAsIn-kept idle s s2 p r d f as_in) ds in
      let at_head = ap (load h) held.first ∙ held.linked.0 in
      (
        s3,
        cron_loop_step (length r) s h l1 s2 (node none (first_or (m ++ backwards r) none) p)
              (not_empty s.clients (length (m ++ backwards r)) (l.count ∙ n ∙ omega arith)) run1
              at_head run2
            ∙ run3,
        held4,
      )

  -- clientsCron on a list of fewer than 2 ^ 31 clients, whose last ones, as many as it has rounds,
  -- are those of r from the tail on: it ends without a bad access, it visits exactly these, closes
  -- the idle ones among them, and leaves the others of them in front of the list, the last visited
  -- one first; the rest of the list keeps its order. It asks for the laws of the functions of other
  -- files, and that the clients of r are there and are different ones.
  pub clients_cron_lem :
      (idle : ℕ → Bool) (r m : List (ℕ × ℕ)) (s : CronState W)
      → Holds s.heap s.clients (m ++ backwards r)
      → length (m ++ backwards r) < 2 ^ 31
      → length r ≡ cron_iterations cfg (length (m ++ backwards r))
      → AreAsIn cfg idle s r
      → AreDifferent r
      → (s' : CronState W) × (clients_cron calls cfg s ≡ some s')
        × Holds s'.heap s'.clients (keep_onto idle r m)
  unfolding clients_cron
  clients_cron_lem idle r m s l small rounds as_in d =
      let (s', run, held) = cron_loop_lem idle r m s l (omega (arith, small)) as_in d in
      (
        s',
        ap (λ n. cron_loop calls cfg n s) (ap (cron_iterations cfg) l.count ∙ sym rounds) ∙ run,
        held,
      )
