-- ===== src/Files/PipeAlloc.antt =====
-- `pipealloc` of kernel/pipe.c: two open files and a page, or none of them.
use risc_v_operating_system.Base.{
  ℕ, ◌<◌, ◌≡◌, refl, sym, ap, ◌∙◌, ◌≢◌, inl, inr, Bool, true, false, not, Option, none, some, List,
  [], ◌∷◌, arith, ◌==◌, if◌then◌else◌, Bool-cases, update, update_self, update_ne, Run, ok, ◌>>=◌,
  Safely, safely, Safely-bind,
}
use risc_v_operating_system.Base.{occurrences, remove, Option-cases}
use risc_v_operating_system.Files.{File, Table, filealloc, fileclose, Closing, fd_pipe, nfile}
use risc_v_operating_system.Files.Counts.{
  Counted, IsAllocated, update-Counted, filealloc-IsAllocated, fileclose-Counted,
}
use risc_v_operating_system.Kalloc.{Kmem, kalloc}

-- What `pipealloc` leaves. `files` is `none` for the result -1; else it holds `*f0`, `*f1` and the
-- pipe's page. `closings` is what its calls of `fileclose` let go.
pub record Result : Type 0 where
  pub files : Option (ℕ × ℕ × ℕ)
  pub closings : List Closing
  pub table : Table
  pub mem : Kmem

abbrev pub pipe_end : (pipe : ℕ) → (writable : Bool) → File → File
pipe_end pipe writable f = record f {
  file_type = fd_pipe;
  readable = not writable;
  writable = writable;
  pipe = pipe;
}

-- what `*f0` and `*f1` become, once all is allocated
abbrev pub fill_ends : (f0 f1 pipe : ℕ) → Table → Table
fill_ends f0 f1 pipe t =
    let t' = update t f0 (pipe_end pipe false (t f0)) in update t' f1 (pipe_end pipe true (t' f1))

-- from the second `filealloc` on; `pi` is 0 wherever the code jumps to `bad`
unfoldable pub pipealloc_second : (f0 : ℕ) → Table → Kmem → Run Result
pipealloc_second f0 t k = elim (filealloc t) [
  | none ↦ fileclose f0 t >>= λ r.
      ok (record { files = none; closings = r.0 ∷ []; table = r.1; mem = k })
  | some (f1, t') ↦
      if (kalloc k).0 == 0
      then (fileclose f0 t' >>= λ r. fileclose f1 r.1 >>= λ q.
          ok (record { files = none; closings = r.0 ∷ q.0 ∷ []; table = q.1; mem = (kalloc k).1 }))
      else ok (record {
        files = some (f0, f1, (kalloc k).0);
        closings = [];
        table = fill_ends f0 f1 (kalloc k).0 t';
        mem = (kalloc k).1;
      })
]

unfoldable pub pipealloc : Table → Kmem → Run Result
pipealloc t k = elim (filealloc t) [
  | none ↦ ok (record { files = none; closings = []; table = t; mem = k })
  | some (f0, t') ↦ pipealloc_second f0 t' k
]

remove-head : (f : ℕ) (refs : List ℕ) → remove f (f ∷ refs) ≡ refs
unfolding remove
remove-head f refs = let same : (f == f) ≡ true = ground arith in rw same refl

remove-second : (f g : ℕ) (refs : List ℕ) → f ≢ g → remove f (g ∷ f ∷ refs) ≡ g ∷ refs
unfolding remove
remove-second f g refs ne =
    let same : (f == f) ≡ true = ground arith in
    let other : (f == g) ≡ false = ground arith in rw (other, same) refl

-- All or nothing: the references in use afterwards.
abbrev pub Allocated : List ℕ → Result → Type 0
Allocated refs r = elim r.files [
  | none ↦ Counted r.table refs
  | some (f0, f1, pipe) ↦
      Counted r.table (f1 ∷ f0 ∷ refs)
      × (occurrences f0 refs ≡ 0)
      × (occurrences f1 (f0 ∷ refs) ≡ 0)
      × (pipe ≢ 0)
      × ((r.table f0).pipe ≡ pipe)
      × ((r.table f1).pipe ≡ pipe)
      × ((r.table f0).file_type ≡ fd_pipe)
      × ((r.table f1).file_type ≡ fd_pipe)
      × ((r.table f0).readable ≡ true)
      × ((r.table f1).readable ≡ false)
      × ((r.table f0).writable ≡ false)
      × ((r.table f1).writable ≡ true)
]

fill_ends-Counted :
    (f0 f1 pipe : ℕ) (t : Table) (refs : List ℕ)
    → Counted t refs
    → f0 < nfile
    → f1 < nfile
    → Counted (fill_ends f0 f1 pipe t) refs
fill_ends-Counted f0 f1 pipe t refs c l0 l1 =
    let c' =
      update-Counted t refs refs f0 (pipe_end pipe false (t f0)) c l0 (c.exact f0) (c.few f0)
        (λ g ne. refl) in
    update-Counted _ refs refs f1 _ c' l1 (c'.exact f1) (c'.few f1) (λ g ne. refl)

fill_ends-first :
    (f0 f1 pipe : ℕ) (t : Table) → f0 ≢ f1 → fill_ends f0 f1 pipe t f0 ≡ pipe_end pipe false (t f0)
fill_ends-first f0 f1 pipe t ne =
    let t' = update t f0 (pipe_end pipe false (t f0)) in
    update_ne t' f1 f0 (pipe_end pipe true (t' f1)) (λ e. ne (sym e))
    ∙ update_self t f0 (pipe_end pipe false (t f0))

pipealloc_second-Allocated :
    (f0 : ℕ) (t : Table) (k : Kmem) (refs : List ℕ)
    → f0 < nfile
    → occurrences f0 refs ≡ 0
    → Counted t (f0 ∷ refs)
    → Safely (Allocated refs) (pipealloc_second f0 t k)
unfolding pipealloc_second
pipealloc_second-Allocated f0 t k refs l0 new0 c = elim (Option-cases (filealloc t)) [
  | inl no_file ↦
      rw (no_file, pipealloc_second)
        (Safely-bind (fileclose-Counted t (f0 ∷ refs) f0 c (ground arith))
          (λ r q. safely (rw (remove-head f0 refs) at q.1)))
  | inr ((f1, t'), e) ↦
      let a : IsAllocated t (f0 ∷ refs) (some (f1, t')) =
        rw e at (filealloc-IsAllocated t (f0 ∷ refs) c) in
      let apart : f0 ≢ f1 = ground (arith, a.1) in
      let first = fill_ends-first f0 f1 (kalloc k).0 t' apart in
      rw (e, pipealloc_second)
        (elim (Bool-cases ((kalloc k).0 == 0)) [
          | inl no_page ↦ rw no_page (
              Safely-bind (fileclose-Counted t' (f1 ∷ f0 ∷ refs) f0 a.2 (ground arith)) (λ r q.
                let left = rw (remove-second f0 f1 refs apart) at q.1 in
                Safely-bind (fileclose-Counted r.1 (f1 ∷ refs) f1 left (ground arith))
                  (λ r' q'. safely (rw (remove-head f1 refs) at q'.1))))
          | inr page ↦ rw page (
              safely (
                fill_ends-Counted f0 f1 (kalloc k).0 t' (f1 ∷ f0 ∷ refs) a.2 l0 a.0,
                new0,
                a.1,
                ground arith,
                ap (λ (f : File). f.pipe) first,
                ap (λ (f : File). f.pipe) (update_self _ f1 _),
                ap (λ (f : File). f.file_type) first,
                ap (λ (f : File). f.file_type) (update_self _ f1 _),
                ap (λ (f : File). f.readable) first,
                ap (λ (f : File). f.readable) (update_self _ f1 _),
                ap (λ (f : File). f.writable) first,
                ap (λ (f : File). f.writable) (update_self _ f1 _),
              ))
        ])
]

-- Where the counts are exact, `pipealloc` does not panic. If it fails, the references in use are
-- those from before; if not, there are two more, to two files that nobody referred to, of the type
-- of pipes: the end that is only read and the end that is only written of one pipe, on a page that
-- is not 0.
pub pipealloc-Allocated :
    (t : Table) (k : Kmem) (refs : List ℕ)
    → Counted t refs
    → Safely (Allocated refs) (pipealloc t k)
unfolding pipealloc
pipealloc-Allocated t k refs c = elim (Option-cases (filealloc t)) [
  | inl no_file ↦ rw (no_file, pipealloc) (safely c)
  | inr ((f0, t'), e) ↦
      let a : IsAllocated t refs (some (f0, t')) = rw e at (filealloc-IsAllocated t refs c) in
      rw (e, pipealloc) (pipealloc_second-Allocated f0 t' k refs a.0 a.1 a.2)
]
