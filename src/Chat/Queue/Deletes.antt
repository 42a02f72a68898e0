-- ===== src/Chat/Queue/Deletes.antt =====
-- MP4/MP4main.c: each branch of `del` takes its node out of the list.
use sp.Prelude.{
  ℕ, ◌-◌, ◌≡◌, refl, sym, ◌∙◌, inl, inr, Bool, true, false, ◌||◌, [], ◌∷◌, ◌++◌, none, some, arith,
  ◌==◌, length-append,
}
use sp.Chat.Queue.{Ptr, null, Node, Queue, write, node, del}
use sp.Chat.Queue.Linked.{
  Cells, has, first, last, IsDistinct, Linked, Apart, Linked-write, first-append, last-append,
  has-append, Linked-split, Linked-join, IsDistinct-split, Apart-symm, IsDistinct-join, snoc,
}
use sp.Chat.Queue.Refines.{IsQueue, load_lem, set_pre_lem, write_same, write_other, first_snoc}

-- The result of taking out the node `a`.
abbrev pub Without : Queue → Ptr → Cells → Type 0
Without q a xs = (r : Queue) × (del q a ≡ some r) × IsQueue r xs

del_single : (q : Queue) (a v : ℕ) → IsQueue q ((a, v) ∷ []) → Without q a []
unfolding del
del_single q a v is =
    let (an, ha, _) = is.linked in
    (
      record { heap = write q.heap q.front none; front = null; end = null; size = q.size - 1 },
      rw (an, ha),
      record {
        linked = tt;
        distinct = tt;
        front = refl;
        end = refl;
        size = omega (arith, is.size);
      },
    )

del_first :
    (q : Queue) (a v c x : ℕ) (vs : Cells)
    → IsQueue q ((a, v) ∷ (c, x) ∷ vs)
    → Without q a ((c, x) ∷ vs)
unfolding del
del_first q a v c x vs is =
    let (an, ha, (cn, hc, lv)) = is.linked in
    let (oa, (oc, dv)) = is.distinct in
    let ac : (a == c) ≡ false = ground (arith, oa) in
    let av : has a vs ≡ false = ground (arith, oa) in
    let c' : Node = node null x (first vs null) in
    let h1 = write q.heap c (some c') in
    (
      record { heap = write h1 a none; front = c; end = q.end; size = q.size - 1 },
      rw (an, ha, cn, is.front, load_lem q.heap a _ an ha, set_pre_lem q.heap c _ cn hc null),
      record {
        linked = (
          cn,
          write_other h1 a c none ac ∙ write_same q.heap c (some c'),
          Linked-write h1 a none c null vs av (Linked-write q.heap c (some c') c null vs oc lv),
        );
        distinct = (oc, dv);
        front = refl;
        end = is.end;
        size = omega (arith, is.size);
      },
    )

-- The facts about a node `a` that has a node `b` before it.
record Around (q : Queue) (ys : Cells) (b w a v : ℕ) (vs : Cells) : Type 0 where
  before : Linked q.heap null ys b
  b_ok : (b == null) ≡ false
  at_b : q.heap b ≡ some (node (last null ys) w a)
  a_ok : (a == null) ≡ false
  at_a : q.heap a ≡ some (node b v (first vs null))
  after : Linked q.heap a vs null
  ab : (a == b) ≡ false
  a_ys : has a ys ≡ false
  b_ys : has b ys ≡ false
  a_vs : has a vs ≡ false
  b_vs : has b vs ≡ false
  rest : IsDistinct ((ys ++ (b, w) ∷ []) ++ vs)
  apart : Apart (ys ++ (b, w) ∷ []) vs

around :
    (q : Queue) (ys : Cells) (b w a v : ℕ) (vs : Cells)
    → IsQueue q ((ys ++ (b, w) ∷ []) ++ (a, v) ∷ vs)
    → Around q ys b w a v vs
around q ys b w a v vs is =
    let us = ys ++ (b, w) ∷ [] in
    let (lu, (an, ha, lv)) = Linked-split q.heap null null us ((a, v) ∷ vs) is.linked in
    let (ly, (bn, hb, _)) = Linked-split q.heap null a ys ((b, w) ∷ []) lu in
    let (du, (av, dv), (au, ap)) = IsDistinct-split us ((a, v) ∷ vs) is.distinct in
    let (dy, db, (by, _)) = IsDistinct-split ys ((b, w) ∷ []) du in
    let split : (has a ys || ((b == a) || false)) ≡ false =
      rw (has-append a ys ((b, w) ∷ [])) at au in
    let b_in : has b us ≡ true = rw (has-append b ys ((b, w) ∷ [])) (b_last ys b w) in
    let e = last-append null ys ((b, w) ∷ []) in
    record {
      before = ly;
      b_ok = bn;
      at_b = hb;
      a_ok = an;
      at_a = rw e at ha;
      after = lv;
      ab = ab_of (has a ys) a b split;
      a_ys = left_of (has a ys) (b == a) split;
      b_ys = by;
      a_vs = av;
      b_vs = Apart-symm us vs b ap b_in;
      rest = IsDistinct-join us vs du dv ap;
      apart = ap;
    }
  where
    b_last : (ys : Cells) (b w : ℕ) → (has b ys || ((b == b) || false)) ≡ true
    b_last ys b w = ground arith

    ab_of : (p : Bool) (a b : ℕ) → (p || ((b == a) || false)) ≡ false → (a == b) ≡ false
    ab_of p a b h = ground arith

    left_of : (p r : Bool) → (p || (r || false)) ≡ false → p ≡ false
    left_of p r h = ground arith

del_last :
    (q : Queue) (ys : Cells) (b w a v : ℕ)
    → IsQueue q ((ys ++ (b, w) ∷ []) ++ (a, v) ∷ [])
    → Without q a ((ys ++ (b, w) ∷ []) ++ [])
unfolding del
del_last q ys b w a v is =
    let us = ys ++ (b, w) ∷ [] in
    let f = around q ys b w a v [] is in
    let b' = node (last null ys) w null in
    let h1 = write q.heap b (some b') in
    (
      record { heap = write h1 a none; front = q.front; end = b; size = q.size - 1 },
      rw (f.a_ok, f.at_a, f.b_ok, f.at_b),
      record {
        linked =
            Linked-join (write h1 a none) null null us []
              (Linked-join (write h1 a none) null null ys ((b, w) ∷ [])
                (Linked-write h1 a none null b ys f.a_ys
                  (Linked-write q.heap b (some b') null b ys f.b_ys f.before))
                (f.b_ok, write_other h1 a b none f.ab ∙ write_same q.heap b (some b'), tt))
              tt;
        distinct = f.rest;
        front =
            is.front
            ∙ first-append us ((a, v) ∷ []) null
            ∙ first_snoc ys (b, w) a null
            ∙ sym (first-append us [] null);
        end = sym (last-append null us [] ∙ last-append null ys ((b, w) ∷ []));
        size = omega (arith, is.size, length-append {0} us ((a, v) ∷ []), length-append {0} us []);
      },
    )

del_inner :
    (q : Queue) (ys : Cells) (b w a v c x : ℕ) (vs : Cells)
    → IsQueue q ((ys ++ (b, w) ∷ []) ++ (a, v) ∷ (c, x) ∷ vs)
    → Without q a ((ys ++ (b, w) ∷ []) ++ (c, x) ∷ vs)
unfolding del
del_inner q ys b w a v c x vs is =
    let us = ys ++ (b, w) ∷ [] in
    let f = around q ys b w a v ((c, x) ∷ vs) is in
    let (cn, hc, lv) = f.after in
    let ca : (a == c) ≡ false = ground (arith, f.a_vs) in
    let cb : (b == c) ≡ false = ground (arith, f.b_vs) in
    let bc : (c == b) ≡ false = ground (arith, f.b_vs) in
    let av : has a vs ≡ false = ground (arith, f.a_vs) in
    let bv : has b vs ≡ false = ground (arith, f.b_vs) in
    let (_, (cv, _), _) = IsDistinct-split us ((c, x) ∷ vs) f.rest in
    let cs = rw (has-append c ys ((b, w) ∷ [])) at f.apart.0 in
    let cy : has c ys ≡ false = or_left (has c ys) _ cs in
    let b' = node (last null ys) w c in
    let c' = node b x (first vs null) in
    let h0 = write q.heap a none in
    let h1 = write h0 b (some b') in
    let h2 = write h1 c (some c') in
    let at_b0 = write_other q.heap a b none f.ab ∙ f.at_b in
    let at_c1 = write_other h0 b c (some b') cb ∙ write_other q.heap a c none ca ∙ hc in
    (
      record { heap = h2; front = q.front; end = q.end; size = q.size - 1 },
      rw (f.a_ok, f.at_a, f.b_ok, cn, at_b0, at_c1),
      record {
        linked =
            Linked-join h2 null null us ((c, x) ∷ vs)
              (Linked-join h2 null c ys ((b, w) ∷ [])
                (Linked-write h1 c (some c') null b ys cy (
                  Linked-write h0 b (some b') null b ys f.b_ys
                    (Linked-write q.heap a none null b ys f.a_ys f.before)))
                (f.b_ok, write_other h1 c b (some c') bc ∙ write_same h0 b (some b'), tt))
              (rw (last-append null ys ((b, w) ∷ [])) (
                cn,
                write_same h1 c (some c'),
                Linked-write h1 c (some c') c null vs cv (
                    Linked-write h0 b (some b') c null vs bv
                      (Linked-write q.heap a none c null vs av lv)),
              ));
        distinct = f.rest;
        front =
            is.front
            ∙ first-append us ((a, v) ∷ (c, x) ∷ vs) null
            ∙ first_snoc ys (b, w) a c
            ∙ sym (first-append us ((c, x) ∷ vs) null);
        end =
            is.end
            ∙ last-append null us ((a, v) ∷ (c, x) ∷ vs)
            ∙ sym (last-append null us ((c, x) ∷ vs));
        size = omega (
          arith,
          is.size,
          length-append {0} us ((a, v) ∷ (c, x) ∷ vs),
          length-append {0} us ((c, x) ∷ vs),
        );
      },
    )
  where
    or_left : (p r : Bool) → (p || r) ≡ false → p ≡ false
    or_left p r h = ground arith

-- `del` of a node of the queue takes exactly this node out, and the queue stays well formed.
pub del-Without :
    (q : Queue) (us vs : Cells) (a v : ℕ) → IsQueue q (us ++ (a, v) ∷ vs) → Without q a (us ++ vs)
del-Without q us vs a v is = elim (snoc us) [
  | inl e ↦ rw e (at_front vs (rw e at is))
  | inr (ys, b, w, e) ↦ rw e (behind ys b w vs (rw e at is))
]
  where
    at_front : (vs : Cells) → IsQueue q ((a, v) ∷ vs) → Without q a vs
    at_front [] is = del_single q a v is
    at_front ((c, x) ∷ vs) is = del_first q a v c x vs is

    behind :
        (ys : Cells) (b w : ℕ) (vs : Cells)
        → IsQueue q ((ys ++ (b, w) ∷ []) ++ (a, v) ∷ vs)
        → Without q a ((ys ++ (b, w) ∷ []) ++ vs)
    behind ys b w [] is = del_last q ys b w a v is
    behind ys b w ((c, x) ∷ vs) is = del_inner q ys b w a v c x vs is
