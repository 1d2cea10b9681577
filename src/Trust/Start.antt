-- ===== src/Trust/Start.antt =====
-- internal/trust/trust.go: the start of `Execute`, up to the loaded certificate, and its lock.
use utlsproxy.Common.{
  ℕ, [], ◌∷◌, ◌++◌, list_eq, nat_eq, ◌==◌, list_beq_iff, Bool-cases, inl, inr, ap, sym, ◌∙◌, arith,
  append_assoc, Bool, true, false, not, ◌≡◌, refl, subst, Option,
}
use utlsproxy.Common.Outcome.{Result, ok, err}
use utlsproxy.Common.Text.{Bytes, codes}
use utlsproxy.Disk
use utlsproxy.Disk.{flock, open_file, message, FilePath, IoError, Disk, Node}
use utlsproxy.Disk.Frame.{bind-Frames, attempt-Frames, open_file-Frames, Frames, flock-Frames}
use utlsproxy.Files.{lock, locked}
use utlsproxy.Trust.{Certificate, Manager, load}
use utlsproxy.Trust.Execute.{join, receipt_of, enter, execute, is_unknown, proceed}
use utlsproxy.Trust.Reads.{load-Steady}
use utlsproxy.Trust.Rules.{
  Same, Steady, Ends-final, bind-Steady, get-Steady, on_disk-Steady, require-Steady,
}
use utlsproxy.Trust.Triple.{Triple}
use utlsproxy.Trust.World.{Action, Run, ◌>>=◌, ◌>>◌, after, on_disk, pure, raise, require}

-- the last byte
abbrev last_or : ℕ → Bytes → ℕ
last_or c [] = c
last_or c (d ∷ s) = last_or d s

last_or-snoc : (c : ℕ) (s : Bytes) (a : ℕ) → last_or c (s ++ a ∷ []) ≡ a
last_or-snoc c [] a = refl
last_or-snoc c (d ∷ s) a = last_or-snoc d s a

-- Texts with other last bytes are not the same.
snoc_apart : (x y : Bytes) (a b : ℕ) → (a == b) ≡ false → (x ++ a ∷ [] == y ++ b ∷ []) ≡ false
snoc_apart x y a b h = elim (Bool-cases (x ++ a ∷ [] == y ++ b ∷ [])) [
  | inl e ↦
      let same : a ≡ b =
        sym (last_or-snoc 0 x a)
        ∙ ap (last_or 0) ((list_beq_iff (x ++ a ∷ []) (y ++ b ∷ [])).0 e)
        ∙ last_or-snoc 0 y b in
      absurd (ground (arith, same, h))
  | inr n ↦ n
]

-- the lock's file is no receipt
pub lock_apart :
    {W : Type 0} (M : Manager W) (c : Certificate)
    → (join M.dir (codes "trust.lock") == receipt_of M c) ≡ false
unfolding join
lock_apart M c =
    (λ i. sym (append_assoc M.dir (b'/' ∷ codes "trust.loc") (b'k' ∷ [])) i == (
      sym
        (append_assoc (M.dir) (b'/' ∷ (c.sha256 ++ codes ".jso")) (b'n' ∷ [])
          ∙ ap (λ t. M.dir ++ b'/' ∷ t) (append_assoc c.sha256 (codes ".jso") (b'n' ∷ [])))
        i))
    ∙ snoc_apart (M.dir ++ b'/' ∷ codes "trust.loc") (M.dir ++ b'/' ∷ (c.sha256 ++ codes ".jso"))
        b'k' b'n' refl

locked-Frames :
    (q : FilePath) (x : Option Node) (r : Result IoError (Unit {0})) (d : Disk)
    → d.nodes q ≡ x
    → Frames q x (locked r d)
locked-Frames q x (ok u) d k = k
locked-Frames q x (err e) d k = k

lock-Frames :
    (q : FilePath) (x : Option Node) (p : FilePath) (d : Disk)
    → (p == q) ≡ false
    → d.nodes q ≡ x
    → Frames q x (lock p d)
unfolding lock
lock-Frames q x p d other k =
    bind-Frames q x (open_file p 384) (λ _. Disk.◌>>=◌ (Disk.attempt (flock p)) locked) d
      (open_file-Frames q x p d other k 384)
      (λ _ d1 k1.
        bind-Frames q x (Disk.attempt (flock p)) locked d1
          (attempt-Frames q x (flock p) d1 (flock-Frames q x p d1 k1))
          (λ r d2 k2. locked-Frames q x r d2 k2))

module _ {W : Type 0} (M : Manager W) (q : FilePath) where
  framed : (x : Option Node) (r : Result IoError (Unit {0}) × Disk) → r.1.nodes q ≡ x → Frames q x r
  framed x (ok u, d) h = h
  framed x (err e, d) h = h

  pub enter-Steady :
      ((d : Disk) → (M.protect M.dir d).1.nodes q ≡ d.nodes q)
      → (join M.dir (codes "trust.lock") == q) ≡ false
      → Steady q (enter M)
  unfolding enter ◌>>◌
  enter-Steady protects other = bind-Steady q _ _ (get-Steady q) (λ run.
      bind-Steady q _ _ (require-Steady q _ _) (λ _.
        bind-Steady q _ _
          (on_disk-Steady q (M.protect M.dir)
            (λ d. framed (d.nodes q) (M.protect M.dir d) (protects d)))
          (λ _.
            on_disk-Steady q _
              (λ d. lock-Frames q (d.nodes q) (join M.dir (codes "trust.lock")) d other refl))))

  module _ (c : Certificate) (I : Run W → Type 0) (same : (r r' : Run W) → Same q r r' → I r → I r')
      (action : Action) (path : FilePath) (dry : Bool) (r : Run W) where
    -- What the part behind the load keeps, the whole keeps.
    pub execute-keeps :
        (load M.crypto path r.disk).0 ≡ ok c
        → Triple I (proceed M action path dry c) (λ _. I) I
        → I r
        → I (execute M action path dry r).1
    unfolding execute ◌>>◌ ◌>>=◌ on_disk require raise pure
    execute-keeps e t s = allowed (not (is_unknown action))
      where
        loaded :
            (x : Result IoError Certificate × Disk)
            → x.0 ≡ ok c
            → x.1.nodes q ≡ r.disk.nodes q
            → I (after (x.0, record r { disk = x.1 }) (proceed M action path dry)).1
        loaded (err y, d) k f = cc
        loaded (ok c', d) k f =
            let eq : c ≡ c' = cc in
            subst (λ (x : Certificate). I (proceed M action path dry x (record r { disk = d })).1)
              eq
              (Ends-final I (proceed M action path dry c (record r { disk = d }))
                (t.ends (record r { disk = d }) (same r (record r { disk = d }) (f, refl) s)))

        allowed :
            (b : Bool)
            → I
                ((require b (message (codes "unknown trust action")) >>= λ _.
                    on_disk (load M.crypto path) >>= proceed M action path dry)
                  r).1
        allowed false = s
        allowed true = loaded (load M.crypto path r.disk) e ((load-Steady M.crypto q path).same r).0
