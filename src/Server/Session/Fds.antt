-- ===== src/Server/Session/Fds.antt =====
-- The descriptors that newFD hands out.
use wsfs_core.Prelude.{
  ◌∙◌, sym, ℕ, zero, suc, ◌≡◌, ◌≢◌, ◌+◌, ◌%◌, ◌^◌, ◌≤◌, ◌<◌, refl, none, some, List, [], ◌∷◌, ◌==◌,
  arith, length, Option-cases, Bool-cases, inl, inr,
}
use wsfs_core.Server.Session.{Session, load, delete, free_fd, new_fd}

abbrev pub Fds : Type 0
Fds = List (ℕ × ℕ)

pub load-delete_self : (fd : ℕ) (m : Fds) → load fd (delete fd m) ≡ none
unfolding load delete
load-delete_self fd [] = refl
load-delete_self fd ((k, sfd) ∷ m) = ground (arith, load-delete_self fd m)

pub load-delete_other : (x fd : ℕ) (m : Fds) → x ≢ fd → load x (delete fd m) ≡ load x m
unfolding load delete
load-delete_other x fd [] ne = refl
load-delete_other x fd ((k, sfd) ∷ m) ne = ground (arith, load-delete_other x fd m ne)

length-delete-le : (fd : ℕ) (m : Fds) → length (delete fd m) ≤ length m
unfolding delete
length-delete-le fd [] = omega arith
length-delete-le fd ((k, sfd) ∷ m) = ground (arith, length-delete-le fd m)

length-delete : (fd sfd : ℕ) (m : Fds) → load fd m ≡ some sfd → length (delete fd m) < length m
unfolding delete load
length-delete fd sfd [] e = absurd (ground arith)
length-delete fd sfd ((k, v) ∷ m) e = elim (Bool-cases (k == fd)) [
  | inl same ↦ ground (arith, length-delete-le fd m)
  | inr other ↦ ground (arith, length-delete fd sfd m (ground arith))
]

-- The candidate that the loop tries after `k` others.
abbrev candidate : ℕ → ℕ → ℕ
candidate last k = (last + 1 + k) % 2 ^ 32

-- Later candidates are not the first one.
window :
    (last k : ℕ) (fds seen : Fds)
    → load (candidate last (suc k)) fds ≡ load (candidate last (suc k)) seen
    → suc k < 2 ^ 32
    → let fd = (last + 1) % 2 ^ 32 in
      load (candidate fd k) fds ≡ load (candidate fd k) (delete fd seen)
window last k fds seen same small =
    let fd : ℕ = (last + 1) % 2 ^ 32 in
    let next : candidate fd k ≡ candidate last (suc k) = omega arith in
    let ne : candidate last (suc k) ≢ fd = λ e. omega arith in
    rw next (same ∙ sym (load-delete_other (candidate last (suc k)) fd seen ne))

-- On the candidates the table looks like a smaller one, `seen`.
free_fd-free :
    (tries last : ℕ) (fds seen : Fds)
    → ((k : ℕ) → k ≤ tries → load (candidate last k) fds ≡ load (candidate last k) seen)
    → length seen ≤ tries
    → tries < 2 ^ 32
    → load (free_fd tries last fds) fds ≡ none
unfolding free_fd
free_fd-free zero last fds [] same few small = ground (arith, same 0)
free_fd-free zero last fds (x ∷ seen) same few small = absurd (omega arith)
free_fd-free (suc tries) last fds seen same few small =
    let fd : ℕ = (last + 1) % 2 ^ 32 in
    elim (Option-cases (load fd fds)) [
      | inl free ↦ rw (free_fd, free) free
      | inr (sfd, taken) ↦
          let there : load fd seen ≡ some sfd = ground (arith, same 0 (omega arith)) in
          rw (free_fd, taken)
            (free_fd-free tries fd fds (delete fd seen)
              (λ k le. window last k fds seen (same (suc k) (omega arith)) (omega arith))
              (omega (arith, length-delete fd sfd seen there)) (omega arith))
    ]

free_fd-bound : (tries last : ℕ) (fds : Fds) → free_fd tries last fds < 2 ^ 32
unfolding free_fd
free_fd-bound zero last fds = omega arith
free_fd-bound (suc tries) last fds = ground (
  arith,
  free_fd-bound tries ((last + 1) % 2 ^ 32) fds,
  Option-cases (load ((last + 1) % 2 ^ 32) fds),
)

load-new_fd_other :
    {World : Type 0} (x sfd : ℕ) (s : Session World)
    → x ≢ (new_fd sfd s).0
    → load x (new_fd sfd s).1.fds ≡ load x s.fds
unfolding new_fd load
load-new_fd_other x sfd s ne = ground arith

-- While fewer than 2^32 - 1 files are open, newFD hands out a descriptor of 32 bits that was not in
-- use, which then stands for the file, and no other descriptor changes.
pub new_fd_lem :
    {World : Type 0} (sfd : ℕ) (s : Session World)
    → length s.fds + 1 < 2 ^ 32
    → let (fd, s') = new_fd sfd s in
      (load fd s.fds ≡ none)
      × (fd < 2 ^ 32)
      × (load fd s'.fds ≡ some sfd)
      × ((x : ℕ) → x ≢ fd → load x s'.fds ≡ load x s.fds)
unfolding new_fd load
new_fd_lem sfd s small =
    let fd : ℕ = free_fd (length s.fds) s.fd_last s.fds in
    let free : load fd s.fds ≡ none =
      free_fd-free (length s.fds) s.fd_last s.fds s.fds (λ k le. refl) (omega arith)
        (omega arith) in
    (
      free,
      free_fd-bound (length s.fds) s.fd_last s.fds,
      ground arith,
      λ x ne. load-new_fd_other x sfd s ne,
    )
