-- ===== src/Health/Reports.antt =====
-- What a subscriber of the health reports sees.
use umaa_cpp.Base.{
  ℕ, ◌≡◌, ◌∙◌, ap, ◌↔◌, refl, Bool, true, false, Option, none, some, List, [], ◌∷◌, if◌then◌else◌,
  is_some, arith, Bool-cases, inl, inr,
}
use umaa_cpp.Health.{
  no_error, ErrorCode, error_code_to_int, Severity, Report, Key, same_key, key_of, Message, sent,
  disposed, Env, Output, Control, get, put, drop, send_report, build_report, update_system_health,
  register_resource, emplace, hand_disposal, take_out, deregister_resource, send_each,
  send_all_reports, resend, heartbeat, dispose_each, dispose_reports, clear_and_stop, new, Call,
  registers, deregisters, updates, starts, stops, beats, step, after,
}

same_code : (a b : ErrorCode) → error_code_to_int a ≡ error_code_to_int b → a ≡ b
same_code a b h = ground (arith, h)

same_key_iff : (a b : Key) → (same_key a b ≡ true) ↔ (a ≡ b)
unfolding same_key
same_key_iff a b =
    (λ h. ground (arith, h, same_code a.error_code b.error_code), λ h. ground (arith, h))

if-elim : {X : Type 0} (P : X → Type 0) {x y : X} (b : Bool) → P x → P y → P (if b then x else y)
if-elim P true p q = p
if-elim P false p q = q

module _ {W : Type 0} where
  -- The report of a resource and a code that the messages leave a subscriber with.
  unfoldable pub view : List (Message W) → Key → Option (Report W)
  view [] k = none
  view (sent r ∷ ms) k = if same_key (key_of r) k then some r else view ms k
  view (disposed r ∷ ms) k = if same_key (key_of r) k then none else view ms k

  -- The entries stand under their reports' keys, each key once.
  Keyed : List (Key × Report W) → Type 0
  Keyed [] = Unit
  Keyed ((k, r) ∷ m) = (key_of r ≡ k) × (get k m ≡ none) × Keyed m

  get-put :
      (j k : Key) (r : Report W) (m : List (Key × Report W))
      → get j (put k r m) ≡ (if same_key k j then some r else get j m)
  get-put j k r [] = refl
  get-put j k r ((i, s) ∷ m) = elim (Bool-cases (same_key i k)) [
    | inl e ↦ ground (arith, e, same_key_iff i k)
    | inr e ↦
        ground (arith, e, get-put j k r m, same_key_iff i j, same_key_iff i k, same_key_iff k j)
  ]

  get-drop :
      (j k : Key) (m : List (Key × Report W))
      → get j (drop k m) ≡ (if same_key k j then none else get j m)
  get-drop j k [] = ground arith
  get-drop j k ((i, s) ∷ m) =
      ground (arith, get-drop j k m, same_key_iff i k, same_key_iff i j, same_key_iff k j)

  get_key :
      (k : Key) (r : Report W) (m : List (Key × Report W))
      → Keyed m
      → get k m ≡ some r
      → key_of r ≡ k
  unfolding Keyed
  get_key k r [] h there = absurd (cc)
  get_key k r ((j, s) ∷ m) (e, free, h) there =
      ground (arith, e, there, get_key k r m h, same_key_iff j k)

  put-Keyed :
      (k : Key) (r : Report W) (m : List (Key × Report W))
      → key_of r ≡ k
      → Keyed m
      → Keyed (put k r m)
  unfolding Keyed
  put-Keyed k r [] e h = (e, refl, tt)
  put-Keyed k r ((j, s) ∷ m) e h =
      ground (arith, e, h, put-Keyed k r m e, get-put j k r m, same_key_iff j k, same_key_iff k j)

  drop-Keyed : (k : Key) (m : List (Key × Report W)) → Keyed m → Keyed (drop k m)
  unfolding Keyed
  drop-Keyed k [] h = tt
  drop-Keyed k ((j, s) ∷ m) h = ground (arith, h, drop-Keyed k m, get-drop j k m, same_key_iff k j)

  -- `o` shows what `m` holds.
  Shows : List (Key × Report W) → Output W → Type 0
  Shows m o = (k : Key) → view o.bus k ≡ get k m

  Follows : Control W → Type 0
  Follows c = Keyed c.reports × Shows c.reports c.output

  seen_after : Report W → List (Message W) → Key → Option (Report W)
  seen_after r ms k = if same_key (key_of r) k then some r else view ms k

  view-resend :
      (env : Env W) (r : Report W) (o : Output W)
      → (key_of (resend env r o).0 ≡ key_of r)
        × ((k : Key) → view (resend env r o).1.bus k ≡ seen_after (resend env r o).0 o.bus k)
  unfolding resend send_report view seen_after
  view-resend env r o = (ground arith, λ k. ground arith)

  or_else : Option (Report W) → Option (Report W) → Option (Report W)
  or_else none s = s
  or_else (some r) s = some r

  or_else-seen :
      (j k : Key) (r : Report W) (ms : List (Message W)) (g : Option (Report W))
      → key_of r ≡ j
      → (same_key j k ≡ true → g ≡ none)
      → or_else g (seen_after r ms k) ≡ or_else (if same_key j k then some r else g) (view ms k)
  unfolding or_else seen_after
  or_else-seen j k r ms g e free = elim (Bool-cases (same_key j k)) [
    | inl h ↦ rw (e, h, free h)
    | inr h ↦ rw (e, h)
  ]

  -- The loop of sendAllReports keeps the keys, and a subscriber sees what it stores.
  send_each-Keyed :
      (env : Env W) (m : List (Key × Report W)) (o : Output W)
      → Keyed m
      → Keyed (send_each env m o).0
        × ((k : Key) → is_some (get k (send_each env m o).0) ≡ is_some (get k m))
        × ((k : Key)
            → view (send_each env m o).1.bus k
              ≡ or_else (get k (send_each env m o).0) (view o.bus k))
  unfolding send_each Keyed
  send_each-Keyed env [] o h = (tt, λ k. refl, λ k. unfold or_else in refl)
  send_each-Keyed env ((j, r) ∷ m) o (e, free, h) =
      let (keyed, same, seen) = send_each-Keyed env m (resend env r o).1 h in
      let (key, sees) = view-resend env r o in
      (
        (key ∙ e, ground (arith, same j, free), keyed),
        λ k. ground (arith, same k),
        λ k.
            seen k
            ∙ ap (or_else (get k (send_each env m (resend env r o).1).0)) (sees k)
            ∙ or_else-seen j k (resend env r o).0 o.bus
                (get k (send_each env m (resend env r o).1).0) (key ∙ e)
                (λ h. ground (arith, same j, free, (same_key_iff j k).0 h)),
      )

  send_all-Follows : (env : Env W) (c : Control W) → Follows c → Follows (send_all_reports env c)
  unfolding Follows Shows send_all_reports or_else
  send_all-Follows env c (keyed, shows) =
      let (keyed', same, seen) = send_each-Keyed env c.reports c.output keyed in
      (keyed', λ k. ground (arith, same k, seen k, shows k))

  -- A message about `k`'s new report, and the table with it.
  put-Follows :
      (env : Env W) (k : Key) (r : Report W) (c : Control W) (o : Output W)
      → key_of r ≡ k
      → o.bus ≡ c.output.bus
      → Follows c
      → Follows (record c {
        reports = put k (send_report env r o).0 c.reports;
        output = (send_report env r o).1;
      })
  unfolding Follows Shows send_report view
  put-Follows env k r c o e same (keyed, shows) = (
    put-Keyed k (record r { time_stamp = env.clock o.ticks }) c.reports e keyed,
    λ j. ground (
      arith,
      e,
      same,
      shows j,
      get-put j k (record r { time_stamp = env.clock o.ticks }) c.reports,
    ),
  )

  update-Follows :
      (env : Env W) (k : Key) (severity : Severity) (status : W) (c : Control W)
      → Follows c
      → Follows (update_system_health env k severity status c)
  unfolding update_system_health build_report
  update-Follows env k severity status c h =
      put-Follows env k (build_report env c k severity status).0 c
        (build_report env c k severity status).1 refl refl h

  emplace-Follows :
      (env : Env W) (k : Key) (found : Option (Report W)) (c : Control W)
      → Follows c
      → Follows (emplace env k found (build_report env c k no_error env.no_condition) c)
  unfolding build_report Follows Shows update_system_health send_report
  emplace-Follows env k none c h = update-Follows env k no_error env.no_condition c h
  emplace-Follows env k (some old) c h = h

  take_out-Follows :
      (k : Key) (found : Option (Report W)) (c : Control W)
      → get k c.reports ≡ found
      → Follows c
      → Follows (take_out k found c)
  unfolding Follows Shows view
  take_out-Follows k none c there h = h
  take_out-Follows k (some r) c there (keyed, shows) = (
    drop-Keyed k c.reports keyed,
    λ j. ground (arith, shows j, get-drop j k c.reports, get_key k r c.reports keyed there),
  )

  step-Follows :
      (env : Env W) (c : Control W) (call : Call W) → Follows c → Follows (step env c call)
  unfolding step heartbeat register_resource deregister_resource
  step-Follows env c (registers k) h = emplace-Follows env k (get k c.reports) c h
  step-Follows env c (deregisters k) h = take_out-Follows k (get k c.reports) c refl h
  step-Follows env c (updates k severity status) h = update-Follows env k severity status c h
  step-Follows env c starts h = unfold Follows in h
  step-Follows env c stops h = unfold Follows in h
  step-Follows env c beats h = if-elim Follows c.is_thread_running (send_all-Follows env c h) h

  new-Follows : (c : Control W) → c.reports ≡ [] → c.output.bus ≡ [] → Follows c
  unfolding Follows Shows Keyed view
  new-Follows c none_stored none_sent = rw (none_stored, none_sent) (tt, λ k. refl)

  after-Follows :
      (env : Env W) (c : Control W) (calls : List (Call W))
      → Follows c
      → Follows (after env c calls)
  unfolding after
  after-Follows env c [] h = h
  after-Follows env c (call ∷ calls) h =
      after-Follows env (step env c call) calls (step-Follows env c call h)

  -- The loop of the destructor takes from the subscriber what is stored, and that alone.
  view-dispose_each :
      (m : List (Key × Report W)) (o : Output W) (k : Key)
      → Keyed m
      → view (dispose_each m o).bus k ≡ (elim (get k m) [ none ↦ view o.bus k | some r ↦ none ])
  unfolding dispose_each view Keyed
  view-dispose_each [] o k h = refl
  view-dispose_each ((j, r) ∷ m) o k (e, free, h) =
      ground (arith, e, free, view-dispose_each m (hand_disposal r o) k h, same_key_iff j k)

  -- After any calls of a new object and rounds of its thread, a subscriber that has taken what the
  -- writer was handed sees for each resource and code just the report that the object stores. When
  -- the destructor runs after them, no round of the thread between its steps, the subscriber
  -- sees no report; when a round comes between the disposals and the clearing, it goes on seeing
  -- a report of just the resources and codes of which one was stored.
  pub subscriber_follows :
      (env : Env W) (source : ℕ) (calls : List (Call W)) (k : Key)
      → let c = after env (new source) calls in
        (view c.output.bus k ≡ get k c.reports)
        × (view (clear_and_stop (dispose_reports c)).output.bus k ≡ none)
        × (is_some (view (clear_and_stop (send_all_reports env (dispose_reports c))).output.bus k)
            ≡ is_some (get k c.reports))
  unfolding clear_and_stop dispose_reports send_all_reports Follows Shows or_else
  subscriber_follows env source calls k =
      let c = after env (new source) calls in
      let (keyed, shows) =
        after-Follows env (new source) calls (new-Follows (new source) refl refl) in
      let gone = view-dispose_each c.reports c.output k keyed in
      let (again, same, seen) =
        send_each-Keyed env c.reports (dispose_each c.reports c.output) keyed in
      (shows k, ground (arith, gone, shows k), ground (arith, gone, shows k, same k, seen k))
