-- ===== src/Assets/Deploying.antt =====
-- The theorems about the deployment of all assets of a manager.
use openshift_operator.Base.{
  ◌≡◌, ◌≢◌, refl, ◌∙◌, arith, List, [], ◌∷◌, ◌++◌, All, All-append, All-split, Result, ok, err,
  pure, handle, branch, ◌>>◌, Keeps, bind-Keeps, then-Keeps, if-Keeps, ◌==◌, eqb, ℕ,
}
use openshift_operator.Assets.{
  Gvk, KubeObject, Asset, Manager, create_or_update, is_ready, wait_for, wait_until_ready,
  after_written, deploy,
}
use openshift_operator.Assets.Laws.{
  id_of, IsCluster, IsDeployed, AreDistinct, objects-Keeps, create_or_update-IsDeployed,
}
use openshift_operator.Api.{Key}

-- The objects of all assets, in order.
unfoldable pub all_objects : {B : Type 0} → List (Asset B) → List (KubeObject B)
all_objects [] = []
all_objects (a ∷ as') = a.objects ++ all_objects as'

module _ (M : Manager) (C : IsCluster M) where
  open M use {State, Body}
  open C use {stored}

  is_ready-Keeps : (i : Gvk × Key) (k : Key) → Keeps (stored i) (is_ready M k)
  unfolding is_ready
  is_ready-Keeps i k =
      bind-Keeps (stored i) (M.number_unavailable k) _ (C.ready_keeps k i) (λ n s. refl)

  wait_for-Keeps :
      (i : Gvk × Key) (n : ℕ) (os : List (KubeObject Body)) → Keeps (stored i) (wait_for M n os)
  unfolding wait_for
  wait_for-Keeps i n [] = λ s. refl
  wait_for-Keeps i n (o ∷ os) =
      if-Keeps (stored i) (o.gvk.kind == "DaemonSet")
        (M.exponential_backoff n (is_ready M o.key) >> wait_for M n os) (wait_for M n os)
        (then-Keeps (stored i) (M.exponential_backoff n (is_ready M o.key)) (wait_for M n os)
          (C.backoff_keeps n (is_ready M o.key) i (is_ready-Keeps i o.key)) (wait_for-Keeps i n os))
        (wait_for-Keeps i n os)

  wait_until_ready-Keeps :
      (i : Gvk × Key) (a : Asset Body) → Keeps (stored i) (wait_until_ready M a)
  unfolding wait_until_ready
  wait_until_ready-Keeps i a =
      if-Keeps (stored i) (eqb a.retries 0) (pure tt) (wait_for M a.retries a.objects) (λ s. refl)
        (wait_for-Keeps i a.retries a.objects)

  abbrev Written : Type 0
  Written = Result (Unit {0}) × (List (KubeObject Body) × State)

  -- The turns after the objects of an asset were written leave the objects alone that the next turns
  -- leave alone.
  after_written-Keeps :
      (i : Gvk × Key) (a : Asset Body) (as' : List (Asset Body)) (r : Written)
      → ((t : State) → stored i (deploy M as' t).1.1 ≡ stored i t)
      → stored i (after_written M a as' (deploy M as') r).1.1 ≡ stored i r.1.1
  unfolding after_written
  after_written-Keeps i a as' (err e, (os, s)) h = refl
  after_written-Keeps i a as' (ok u, (os, s)) h = by_wait (wait_until_ready M a' s).0 refl
    where
      a' : Asset Body
      a' = record a { objects = os }

      t : State
      t = (wait_until_ready M a' s).1

      by_wait :
          (w : Result (Unit {0}))
          → (wait_until_ready M a' s).0 ≡ w
          → stored i (after_written M a as' (deploy M as') (ok u, (os, s))).1.1 ≡ stored i s
      by_wait (ok v) e = rw (after_written, e, handle, branch) (h t ∙ wait_until_ready-Keeps i a' s)
      by_wait (err x) e = rw (after_written, e, handle, branch) (wait_until_ready-Keeps i a' s)

  pub deploy-Keeps :
      (i : Gvk × Key) (as' : List (Asset Body)) (s : State)
      → All (λ p. id_of p ≢ i) (all_objects as')
      → stored i (deploy M as' s).1.1 ≡ stored i s
  unfolding deploy all_objects
  deploy-Keeps i [] s h = refl
  deploy-Keeps i (a ∷ as') s h =
      let (here, there) = All-split (λ p. id_of p ≢ i) a.objects (all_objects as') h in
      after_written-Keeps i a as' (create_or_update M a.objects s) (λ t. deploy-Keeps i as' t there)
      ∙ objects-Keeps M C i a.objects s here

  pub AreDistinct-split :
      (xs ys : List (KubeObject Body))
      → AreDistinct M C (xs ++ ys)
      → AreDistinct M C xs × AreDistinct M C ys × All (λ x. All (λ p. id_of p ≢ id_of x) ys) xs
  unfolding AreDistinct
  AreDistinct-split [] ys h = (tt, h, tt)
  AreDistinct-split (x ∷ xs) ys (others, h) =
      let (here, there) = All-split (λ p. id_of p ≢ id_of x) xs ys others in
      let (left, right, apart) = AreDistinct-split xs ys h in ((here, left), right, (there, apart))

  -- Objects that are deployed stay so where what is stored under their kinds and names does.
  pub stay-IsDeployed :
      (ys xs : List (KubeObject Body)) (s t : State)
      → ((i : Gvk × Key) → All (λ p. id_of p ≢ i) ys → stored i t ≡ stored i s)
      → All (λ x. All (λ p. id_of p ≢ id_of x) ys) xs
      → All (IsDeployed M C s) xs
      → All (IsDeployed M C t) xs
  unfolding IsDeployed
  stay-IsDeployed ys [] s t same apart h = tt
  stay-IsDeployed ys (x ∷ xs) s t same (away, apart) ((w, p, owned, there, covers), h) =
      ((w, p, owned, same (id_of x) away ∙ there, covers), stay-IsDeployed ys xs s t same apart h)

  abbrev Deploys : List (Asset Body) → Type 0
  Deploys as' =
      (s : State)
      → (deploy M as' s).0 ≡ ok tt
      → All (IsDeployed M C (deploy M as' s).1.1) (all_objects as')

  after_written-Deploys :
      (a : Asset Body) (as' : List (Asset Body)) (os : List (KubeObject Body)) (r : Written)
      → All (λ x. All (λ p. id_of p ≢ id_of x) (all_objects as')) os
      → Deploys as'
      → (r.0 ≡ ok tt → All (IsDeployed M C r.1.1) os)
      → (after_written M a as' (deploy M as') r).0 ≡ ok tt
      → All (IsDeployed M C (after_written M a as' (deploy M as') r).1.1) (os ++ all_objects as')
  unfolding after_written
  after_written-Deploys a as' os (err e, (written, s)) apart ih here h = absurd (ground (arith, h))
  after_written-Deploys a as' os (ok u, (written, s)) apart ih here h =
      by_wait (wait_until_ready M a' s).0 refl
    where
      a' : Asset Body
      a' = record a { objects = written }

      t : State
      t = (wait_until_ready M a' s).1

      by_wait :
          (w : Result (Unit {0}))
          → (wait_until_ready M a' s).0 ≡ w
          → All
              (IsDeployed M C (after_written M a as' (deploy M as') (ok u, (written, s))).1.1)
              (os ++ all_objects as')
      by_wait (ok v) e =
          rw (after_written, e, handle, branch)
            (All-append (IsDeployed M C (deploy M as' t).1.1) os (all_objects as')
              (stay-IsDeployed (all_objects as') os s (deploy M as' t).1.1
                (λ i away. deploy-Keeps i as' t away ∙ wait_until_ready-Keeps i a' s) apart
                (here refl))
              (ih t (ground (arith, e, h))))
      by_wait (err x) e = absurd (ground (arith, e, h))

  -- Where the assets of a manager, among whose objects no two have the same kind and name, are
  -- deployed without an error, the cluster has each object of each of them under its kind and name,
  -- with its owner, in all that it asks for but the resource version, whichever of them were there
  -- before and however long the deployment had to wait.
  pub deploy-IsDeployed :
      (as' : List (Asset Body)) (s : State)
      → AreDistinct M C (all_objects as')
      → (deploy M as' s).0 ≡ ok tt
      → All (IsDeployed M C (deploy M as' s).1.1) (all_objects as')
  unfolding deploy all_objects
  deploy-IsDeployed [] s d h = tt
  deploy-IsDeployed (a ∷ as') s d h =
      let (left, right, apart) = AreDistinct-split a.objects (all_objects as') d in
      after_written-Deploys a as' a.objects (create_or_update M a.objects s) apart
        (λ t. deploy-IsDeployed as' t right) (create_or_update-IsDeployed M C a.objects s left) h
