-- ===== src/Server/Life.antt =====
-- The services of a server: which are started and stopped, in which order, by run().
use mathlib.Core.List.{append-nil, append_assoc}
use beast_lounge.Base.{
  ℕ, ◌≡◌, inl, inr, refl, sym, ap, subst, ◌∙◌, Bool, true, false, Bool-cases, List, [], ◌∷◌, ◌++◌,
  map, ◌&&◌, if◌then◌else◌,
}
use beast_lounge.Server.{
  started, ended, Server, insert, begin_run, end_run, ServerEvent, inserts, runs, stops, resumes,
  shuts_down, timer, signal, new_server, happen, history,
}
use beast_lounge.Server.Keeps.{Keeps, stop-Keeps, shutdown-Keeps, timer-Keeps, signal-Keeps}

-- The services that insert() takes: those that come before run().
unfoldable pub accepted : List ServerEvent → List ℕ
accepted [] = []
accepted (inserts sp ∷ es) = sp ∷ accepted es
accepted (runs ∷ es) = []
accepted (stops ∷ es) = accepted es
accepted (resumes ∷ es) = accepted es
accepted (shuts_down now cooldown ∷ es) = accepted es
accepted (timer now aborted ∷ es) = accepted es
accepted (signal now aborted ∷ es) = accepted es

-- A server that has run() with the services `xs`, and whether it has returned.
pub data Runs (xs : List ℕ) (s : Server) : Type 0 where
  up : s.running ≡ true → s.in_run ≡ true → s.services ≡ xs → s.calls ≡ map started xs → Runs xs s
  returned :
      s.running ≡ true
      → s.in_run ≡ false
      → s.stopped ≡ true
      → s.calls ≡ map started xs ++ map ended xs
      → Runs xs s

pub data Life (xs : List ℕ) (s : Server) : Type 0 where
  idle : s.running ≡ false → s.in_run ≡ false → s.services ≡ xs → s.calls ≡ [] → Life xs s
  begun : Runs xs s → Life xs s

module _ (ticks never : ℕ) where
  Keeps-Runs : {xs : List ℕ} {s s' : Server} → Keeps s s' → Runs xs s → Runs xs s'
  Keeps-Runs k (up r i v c) =
      up (k.same_running ∙ r) (k.same_in_run ∙ i) (k.same_services ∙ v) (k.same_calls ∙ c)
  Keeps-Runs k (returned r i t c) =
      returned (k.same_running ∙ r) (k.same_in_run ∙ i) (k.still t) (k.same_calls ∙ c)

  if-true {ℓ} : {A : Type ℓ} {b : Bool} {x : A} (y : A) → b ≡ true → (if b then x else y) ≡ x
  if-true {x = x} y e = ap (λ c. if c then x else y) e

  if-false {ℓ} : {A : Type ℓ} {b : Bool} (x : A) {y : A} → b ≡ false → (if b then x else y) ≡ y
  if-false x {y = y} e = ap (λ c. if c then x else y) e

  end_run-Runs : {xs : List ℕ} (s : Server) → Runs xs s → Runs xs (end_run s)
  unfolding end_run
  end_run-Runs {xs = xs} s (up r i v c) = elim (Bool-cases s.stopped) [
    | inl t ↦ subst (Runs _) (sym (if-true _ (ap (λ b. b && s.stopped) i ∙ t))) (
        returned r refl t
          (ap (λ cs. s.calls ++ cs) (ap (map ended) v) ∙ ap (λ cs. cs ++ map ended xs) c))
    | inr f ↦ subst (Runs _) (sym (if-false _ (ap (λ b. b && s.stopped) i ∙ f))) (up r i v c)
  ]
  end_run-Runs s (returned r i t c) =
      subst (Runs _) (sym (if-false _ (ap (λ b. b && s.stopped) i))) (returned r i t c)

  end_run-idle : (s : Server) → s.in_run ≡ false → end_run s ≡ s
  unfolding end_run
  end_run-idle s i = if-false _ (ap (λ b. b && s.stopped) i)

  Runs-running : {xs : List ℕ} {s : Server} → Runs xs s → s.running ≡ true
  Runs-running (up r i v c) = r
  Runs-running (returned r i t c) = r

  happen-Runs :
      {xs : List ℕ} (s : Server) (e : ServerEvent) → Runs xs s → Runs xs (happen ticks never s e)
  unfolding happen insert begin_run
  happen-Runs s (inserts sp) h =
      subst (Runs _) (sym (ap (λ (p : Server × Bool). p.0) (if-true _ (Runs-running h)))) h
  happen-Runs s runs h =
      subst (Runs _) (sym (ap (λ (p : Server × Bool). p.0) (if-true _ (Runs-running h)))) h
  happen-Runs s stops h = Keeps-Runs (stop-Keeps ticks never s) h
  happen-Runs s resumes h = end_run-Runs s h
  happen-Runs s (shuts_down now cooldown) h =
      Keeps-Runs (shutdown-Keeps ticks never now cooldown s) h
  happen-Runs s (timer now aborted) h = Keeps-Runs (timer-Keeps ticks never now aborted s) h
  happen-Runs s (signal now aborted) h = Keeps-Runs (signal-Keeps ticks never now aborted s) h

  history-Runs :
      {xs : List ℕ} (es : List ServerEvent) (s : Server)
      → Runs xs s
      → Runs xs (history ticks never es s)
  unfolding history
  history-Runs [] s h = h
  history-Runs (e ∷ es) s h = history-Runs es (happen ticks never s e) (happen-Runs s e h)

  history-idle :
      (es : List ServerEvent) (xs : List ℕ) (s : Server)
      → s.running ≡ false
      → s.in_run ≡ false
      → s.services ≡ xs
      → s.calls ≡ []
      → Life (xs ++ accepted es) (history ticks never es s)
  unfolding history accepted happen insert begin_run
  history-idle [] xs s r i v c = idle r i (v ∙ sym (append-nil xs)) c
  history-idle (inserts sp ∷ es) xs s r i v c =
      subst (λ t. Life (xs ++ sp ∷ accepted es) (history ticks never es t))
        (sym (ap (λ (p : Server × Bool). p.0) (if-false (s, true) {y = (taken, false)} r)))
        (subst (λ ys. Life ys (history ticks never es taken))
          (append_assoc xs (sp ∷ []) (accepted es))
          (history-idle es (xs ++ sp ∷ []) taken r i (ap (λ ys. ys ++ sp ∷ []) v) c))
    where
      taken : Server
      taken = record s { services = s.services ++ sp ∷ [] }
  history-idle (runs ∷ es) xs s r i v c = begun (
      history-Runs es _ (
        subst (Runs _) (sym (ap (λ (p : Server × Bool). p.0) (if-false _ {y = (_, false)} r)))
          (up refl refl (v ∙ sym (append-nil xs)) (started_all (v ∙ sym (append-nil xs))))))
    where
      started_all :
          {ys : List ℕ} → s.services ≡ ys → s.calls ++ map started s.services ≡ map started ys
      started_all e = ap (λ cs. cs ++ map started s.services) c ∙ ap (map started) e
  history-idle (stops ∷ es) xs s r i v c =
      let k = stop-Keeps ticks never s in
      history-idle es xs _ (k.same_running ∙ r) (k.same_in_run ∙ i) (k.same_services ∙ v)
        (k.same_calls ∙ c)
  history-idle (resumes ∷ es) xs s r i v c =
      subst (λ t. Life (xs ++ accepted es) (history ticks never es t)) (sym (end_run-idle s i))
        (history-idle es xs s r i v c)
  history-idle (shuts_down now cooldown ∷ es) xs s r i v c =
      let k = shutdown-Keeps ticks never now cooldown s in
      history-idle es xs _ (k.same_running ∙ r) (k.same_in_run ∙ i) (k.same_services ∙ v)
        (k.same_calls ∙ c)
  history-idle (timer now aborted ∷ es) xs s r i v c =
      let k = timer-Keeps ticks never now aborted s in
      history-idle es xs _ (k.same_running ∙ r) (k.same_in_run ∙ i) (k.same_services ∙ v)
        (k.same_calls ∙ c)
  history-idle (signal now aborted ∷ es) xs s r i v c =
      let k = signal-Keeps ticks never now aborted s in
      history-idle es xs _ (k.same_running ∙ r) (k.same_in_run ∙ i) (k.same_services ∙ v)
        (k.same_calls ∙ c)

  -- Whatever happens to a new server: before run(), no service was called. In run(), each service that
  -- insert() took before it was started once, in this order; after run(), which needs a stop(), each
  -- was stopped once after that, in the same order.
  pub history-Life :
      (es : List ServerEvent) → Life (accepted es) (history ticks never es (new_server ticks never))
  history-Life es = history-idle es [] (new_server ticks never) refl refl refl refl
