-- ===== src/Pbuf/NetBuf/Plain.antt =====
-- Calls that behave as Zephyr's network buffers are documented to, built from the fragments of
-- pbuf/basic/basic.c: the documented behaviour can hold.
use gabs.Base.{
  ℕ, ◌%◌, ◌^◌, ◌+◌, ◌-◌, ◌<◌, ◌≡◌, ◌≢◌, refl, sym, ap, subst, ◌∙◌, false, some, List, [], ◌∷◌,
  ==-refl, ==-false_of_ne, length, none, add32, ◌==◌, if◌then◌else◌,
}
use gabs.Base.Run.{Cmd, ok, pure, ◌>>=◌, ◌>>◌, Ends-ok}
use gabs.Pbuf.Seg.{Seg, NotIn}
use gabs.Pbuf.Basic.{
  Ptr, null, Frag, Heap, update, load, put_frag, decref_loop, insert_loop, link_last,
}
use gabs.Pbuf.Basic.Leads.{
  seg, Leads, Distinct, SameOff, Node-id, Apart-sym, Leads-frame, SameOff-update,
}
use gabs.Pbuf.Basic.Link.{load_lem, decref_loop-OnlyFrags}
use gabs.Pbuf.Basic.Splice.{last_ptr, insert_loop_lem, link_last-Appended}
use gabs.Pbuf.NetBuf.{Calls, Documented, Lives, stored}

-- A change of one buffer, with a result.
abbrev on_buf : Ptr → (Frag → Frag) → (Frag → ℕ) → Cmd Heap ℕ
on_buf p change result = do f ← load p; put_frag p (some (change f)); pure (result f)

-- The buffer `p` with what follows it in the chain of `q` taken out.
abbrev unlink : Ptr → Frag → Cmd Heap (Unit {0})
unlink q f =
    if q == null then pure tt else do g ← load q; put_frag q (some (record g { next = f.next }))

-- `net_buf_frag_insert`, `net_buf_frag_add`, and the end of `net_buf_frag_del`.
abbrev insert_behind : ℕ → Ptr → Ptr → Cmd Heap (Unit {0})
insert_behind fuel q p = do
  g ← load q
  last ← insert_loop false fuel none p
  _ ← link_last false last p g.next
  put_frag q (some (record g { next = p }))

abbrev append_to : ℕ → Ptr → Ptr → Cmd Heap Ptr
append_to fuel p q = do last ← insert_loop false fuel none p; _ ← link_last false last p q; pure p

abbrev release : ℕ → Ptr → Frag → Cmd Heap Ptr
release fuel p f = do
  put_frag p (some (record f { next = null }))
  decref_loop false fuel p
  pure f.next

abbrev init_buf : Ptr → ℕ → ℕ → Cmd Heap (Unit {0})
init_buf p addr n = do
  f ← load p
  put_frag p (some (record f { base = addr; payload = addr; size = n % 2 ^ 16; cap = n % 2 ^ 16 }))

abbrev take_out : ℕ → Ptr → Ptr → Cmd Heap Ptr
take_out fuel q p = do f ← load p; unlink q f; release fuel p f

abbrev pub plain : Calls
plain = record {
  alloc_len = λ pool n. pure null;
  init_with_data = init_buf;
  ref = λ p. on_buf p (λ f. record f { refcnt = add32 f.refcnt 1 }) (λ f. p);
  unref = decref_loop false;
  push = λ p n.
      on_buf p (λ f. record f { payload = f.payload - n; size = f.size + n }) (λ f. f.payload - n);
  pull_mem = λ p n.
      on_buf p (λ f. record f { payload = f.payload + n; size = f.size - n }) (λ f. f.payload);
  add = λ p n. on_buf p (λ f. record f { size = f.size + n }) (λ f. f.payload + f.size);
  remove_mem =
      λ p n. on_buf p (λ f. record f { size = f.size - n }) (λ f. f.payload + (f.size - n));
  headroom = λ p. load p >>= λ f. pure (f.payload - f.base);
  tailroom = λ p. load p >>= λ f. pure (f.base + f.cap - (f.payload + f.size));
  frag_insert = insert_behind;
  frag_add = append_to;
  frag_del = take_out;
}

lives_load : {h : Heap} {p : Ptr} {f : Frag} → Lives h p f → load p h ≡ ok f h
lives_load {h} {p} {f} lives = load_lem h p f lives.ne_null lives.holds

on_buf_lem :
    (h : Heap) (p : Ptr) (f : Frag) (change : Frag → Frag) (result : Frag → ℕ)
    → Lives h p f
    → on_buf p change result h ≡ ok (result f) (stored h p (change f))
on_buf_lem h p f change result lives = rw (lives_load lives)

-- The chain `ys` was linked to `c` and still begins at `p`.
appended :
    (h : Heap) (p c : Ptr) (y : Seg) (ys : List Seg)
    → Leads h.frags p (y ∷ ys) null
    → Distinct (y ∷ ys)
    → (h' : Heap) × (link_last false (last_ptr none (y ∷ ys)) p c h ≡ ok p h')
      × Leads h'.frags p (y ∷ ys) c
      × SameOff (y ∷ ys) h.frags h'.frags
      × ((w : ℕ) → h'.vars w ≡ h.vars w)
appended h p c y ys path d =
    let (first, h', run, a) = link_last-Appended false h p c (y ∷ ys) path d in
    let same : first ≡ p = sym (Node-id a.path.1) ∙ Node-id path.1 in
    (
      h',
      run ∙ ap (λ q. ok q h') same,
      subst (λ q. Leads h'.frags q (y ∷ ys) c) same a.path,
      a.frags,
      a.vars,
    )

append_to_lem :
    (fuel : ℕ) (h : Heap) (p q : Ptr) (y : Seg) (ys : List Seg)
    → Leads h.frags p (y ∷ ys) null
    → Distinct (y ∷ ys)
    → length (y ∷ ys) < fuel
    → (h' : Heap) × (append_to fuel p q h ≡ ok p h')
      × Leads h'.frags p (y ∷ ys) q
      × SameOff (y ∷ ys) h.frags h'.frags
      × ((w : ℕ) → h'.vars w ≡ h.vars w)
append_to_lem fuel h p q y ys path d short =
    let (h', run, path', same, vars) = appended h p q y ys path d in
    (h', rw (insert_loop_lem false fuel h none p (y ∷ ys) path short, run), path', same, vars)

insert_behind_lem :
    (fuel : ℕ) (h : Heap) (q p : Ptr) (g : Frag) (y : Seg) (ys : List Seg)
    → Lives h q g
    → Leads h.frags p (y ∷ ys) null
    → Distinct (y ∷ ys)
    → NotIn q (y ∷ ys)
    → length (y ∷ ys) < fuel
    → (h' : Heap) × (insert_behind fuel q p h ≡ ok tt h')
      × Leads h'.frags p (y ∷ ys) g.next
      × SameOff (y ∷ ys) (update h.frags q (some (record g { next = p }))) h'.frags
      × ((w : ℕ) → h'.vars w ≡ h.vars w)
insert_behind_lem fuel h q p g y ys lives path d out short =
    let (h1, run, path1, same, vars) = appended h p g.next y ys path d in
    let linked = some (record g { next = p }) in
    (
      stored h1 q (record g { next = p }),
      rw (lives_load lives, insert_loop_lem false fuel h none p (y ∷ ys) path short, run),
      Leads-frame (seg q g ∷ []) p g.next (y ∷ ys) (SameOff-update h1.frags (seg q g) linked)
          (Apart-sym (seg q g ∷ []) (y ∷ ys) (out, tt)) path1,
      λ r off. ap (λ c. if r == q then linked else c) (same r off),
      vars,
    )

release_lem :
    (fuel : ℕ) (h : Heap) (p : Ptr) (f : Frag)
    → Lives h p f
    → 1 < fuel
    → (h' : Heap) × (release fuel p f h ≡ ok f.next h')
      × SameOff (seg p f ∷ []) h.frags h'.frags
      × ((w : ℕ) → h'.vars w ≡ h.vars w)
release_lem fuel h p f lives enough =
    let cut = record f { next = null } in
    let h1 = stored h p cut in
    let off = SameOff-update h.frags (seg p f) (some cut) in
    let alone : Leads h1.frags p (seg p f ∷ []) null = (
      cut,
      record {
        ne_null = lives.ne_null;
        holds = rw (==-refl p);
        is = refl;
        fits = record { low = lives.fits.low; high = lives.fits.high; small = lives.fits.small };
      },
      refl,
    ) in
    let (_, h2, run, (same, vars)) =
      Ends-ok (decref_loop-OnlyFrags false fuel h1 p (seg p f ∷ []) alone (tt, tt) enough) in
    (h2, rw run, λ r out. same r out ∙ off r out, vars)

take_out_next :
    (fuel : ℕ) (h : Heap) (q p : Ptr) (g f : Frag)
    → Lives h q g
    → Lives h p f
    → g.next ≡ p
    → q ≢ p
    → 1 < fuel
    → (h' : Heap) × (take_out fuel q p h ≡ ok f.next h')
      × SameOff (seg p f ∷ []) (update h.frags q (some (record g { next = f.next }))) h'.frags
      × ((w : ℕ) → h'.vars w ≡ h.vars w)
take_out_next fuel h q p g f parent lives e ne enough =
    let h1 = stored h q (record g { next = f.next }) in
    let lives1 : Lives h1 p f = record {
      ne_null = lives.ne_null;
      holds = rw (==-false_of_ne p q (λ e. ne (sym e))) lives.holds;
      fits = lives.fits;
    } in
    let (h2, run, same, vars) = release_lem fuel h1 p f lives1 enough in
    (
      h2,
      rw (lives_load lives, ==-false_of_ne q null parent.ne_null, lives_load parent) run,
      same,
      vars,
    )

take_out_first :
    (fuel : ℕ) (h : Heap) (p : Ptr) (f : Frag)
    → Lives h p f
    → 1 < fuel
    → (h' : Heap) × (take_out fuel null p h ≡ ok f.next h')
      × SameOff (seg p f ∷ []) h.frags h'.frags
      × ((w : ℕ) → h'.vars w ≡ h.vars w)
take_out_first fuel h p f lives enough =
    let (h1, run, same, vars) = release_lem fuel h p f lives enough in
    (h1, rw (lives_load lives) run, same, vars)

pub plain-Documented : Documented plain
plain-Documented = record {
  init_lem = λ h p f addr n lives. rw (lives_load lives);
  ref_lem = λ h p f lives. on_buf_lem h p f _ _ lives;
  push_lem = λ h p f n lives room. on_buf_lem h p f _ _ lives;
  pull_mem_lem = λ h p f n lives room. on_buf_lem h p f _ _ lives;
  add_lem = λ h p f n lives room. on_buf_lem h p f _ _ lives;
  remove_mem_lem = λ h p f n lives room. on_buf_lem h p f _ _ lives;
  headroom_lem = λ h p f lives. rw (lives_load lives);
  tailroom_lem = λ h p f lives. rw (lives_load lives);
  unref_lem = λ fuel h p xs. decref_loop-OnlyFrags false fuel h p xs;
  frag_insert_lem = insert_behind_lem;
  frag_add_lem = append_to_lem;
  frag_del_first = take_out_first;
  frag_del_next = take_out_next;
}
