-- ===== src/Orphans/Cleared.antt =====
-- What is left of a list of orphans when a part of it is scanned, and what all of it comes to.
use libraft.Prelude.{among, ℕ, ◌+◌, ◌≡◌, ap, ◌∙◌, List, ◌++◌, none, arith, if◌then◌else◌}
use libraft.World.{World, in_shm_bounds}
use libraft.Orphans.Buffers.{
  leaving, staying, Agree, leaving-Agree, times, owing, owing-Agree, owing-append, owing-staying,
  owing-bounds,
}
use libraft.Orphans.Scan.{Backlog, Agree-at, Backlog-Agree}
use libraft.Orphans.Backlogs.{
  leaving-staying, staying-part, among-parts, leaving_off, Backlog-scanned,
}

-- What the whole list will have come to once all of it is scanned: the calls that stay, the slots, and
-- how often each buffer was given back.
pub record Cleared (w : World) (xs : List ℕ) (w' : World) (ys : List ℕ) : Type 0 where
  pub backlog : Backlog w'.slots ys
  pub stays : staying w'.slots ys ≡ staying w.slots xs
  pub slots :
      (q : ℕ)
      → (if among q (leaving w'.slots ys) then none else w'.slots q)
        ≡ (if among q (leaving w.slots xs) then none else w.slots q)
  pub buffers :
      (b : ℕ)
      → owing (in_shm_bounds w') w'.slots b ys + times b w'.freed_buffers
        ≡ owing (in_shm_bounds w) w.slots b xs + times b w.freed_buffers

pub Cleared-trans :
    (w u v : World) (xs ys zs : List ℕ) → Cleared w xs u ys → Cleared u ys v zs → Cleared w xs v zs
Cleared-trans w u v xs ys zs a b = record {
  backlog = b.backlog;
  stays = b.stays ∙ a.stays;
  slots = λ q. b.slots q ∙ a.slots q;
  buffers = λ c. b.buffers c ∙ a.buffers c;
}

scanned-buffers :
    (b : ℕ) (w w' : World) (pre mid post : List ℕ)
    → Agree w.slots w'.slots (pre ++ (staying w.slots mid ++ post))
    → ((p : ℕ) → in_shm_bounds w' p ≡ in_shm_bounds w p)
    → times b w'.freed_buffers ≡ owing (in_shm_bounds w) w.slots b mid + times b w.freed_buffers
    → owing (in_shm_bounds w') w'.slots b (pre ++ (staying w.slots mid ++ post))
        + times b w'.freed_buffers
      ≡ owing (in_shm_bounds w) w.slots b (pre ++ (mid ++ post)) + times b w.freed_buffers
scanned-buffers b w w' pre mid post agree m f =
    let inside = in_shm_bounds w in
    let left = pre ++ (staying w.slots mid ++ post) in
    omega (
      arith,
      f,
      owing-bounds inside (in_shm_bounds w') b w'.slots left m,
      owing-Agree inside b w.slots w'.slots left agree,
      owing-append inside b w.slots pre (staying w.slots mid ++ post),
      owing-append inside b w.slots (staying w.slots mid) post,
      owing-staying inside b w.slots mid,
      owing-append inside b w.slots pre (mid ++ post),
      owing-append inside b w.slots mid post,
    )

pub scanned-Cleared :
    (w w' : World) (pre mid post : List ℕ)
    → Backlog w.slots (pre ++ (mid ++ post))
    → ((q : ℕ) → w'.slots q ≡ (if among q (leaving w.slots mid) then none else w.slots q))
    → ((p : ℕ) → in_shm_bounds w' p ≡ in_shm_bounds w p)
    → ((c : ℕ)
        → times c w'.freed_buffers
          ≡ owing (in_shm_bounds w) w.slots c mid + times c w.freed_buffers)
    → Cleared w (pre ++ (mid ++ post)) w' (pre ++ (staying w.slots mid ++ post))
scanned-Cleared w w' pre mid post b h m f =
    let left = pre ++ (staying w.slots mid ++ post) in
    let agree =
      Agree-at w.slots w'.slots left
        (λ q m. ground (arith, h q, leaving_off w.slots q pre mid post b m)) in
    let (gone, here) = leaving-Agree w.slots w'.slots left agree in
    record {
      backlog = Backlog-Agree w.slots w'.slots left agree (Backlog-scanned w.slots pre mid post b);
      stays = here ∙ staying-part w.slots pre mid post;
      slots = λ q. ground (
        arith,
        h q,
        ap (among q) gone,
        among-parts w.slots q pre (staying w.slots mid) post,
        among-parts w.slots q pre mid post,
        ap (among q) (leaving-staying w.slots mid),
      );
      buffers = λ c. scanned-buffers c w w' pre mid post agree m (f c);
    }
