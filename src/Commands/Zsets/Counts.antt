-- ===== src/Commands/Zsets/Counts.antt =====
-- The numbers that ZADD and ZREM reply, and the members of the sorted set.
use cpp_inference_engine.Base.{
  ℕ, ◌+◌, ◌≤◌, ◌≡◌, ◌%◌, ◌∙◌, refl, Bool, true, arith, Option, none, some, [], ◌∷◌, Bytes, length,
  Bool-cases, inl, inr, if◌then◌else◌, ◌||◌,
}
use cpp_inference_engine.Base.Dict.{
  find, Unique, length-put_fresh, length-put_found, length-erase, put-Unique, erase-Unique,
}
use cpp_inference_engine.Base.Double.{deq}
use cpp_inference_engine.Value.{ZSet}
use cpp_inference_engine.Commands.State.{Args, Env, Run, ok}
use cpp_inference_engine.Commands.Zsets.{
  ZaddFlags, Adding, put_score, zadd_pair, zadd_loop, remove_member, remove_at, zrem_loop,
  parse_score,
}

-- Two places of the loop of ZADD, the second behind the first.
pub record Counted (a b : Adding) : Type 0 where
  pub members : length b.zset.dict + a.added ≡ length a.zset.dict + b.added
  pub more : a.changed + b.added ≤ b.changed + a.added
  pub unique : Unique b.zset.dict

zadd_pair-Counted :
    (flips : ℕ → ℕ → Bool) (f : ZaddFlags) (score : ℕ) (member : Bytes) (a : Adding)
    → Unique a.zset.dict
    → Counted a (zadd_pair flips f score member a)
unfolding zadd_pair put_score
zadd_pair-Counted flips f score member a u = split (find member a.zset.dict) refl
  where
    stays : Counted a a
    stays = record { members = refl; more = omega arith; unique = u }

    split :
        (old : Option ℕ)
        → find member a.zset.dict ≡ old
        → Counted a (elim old as (λ x. Adding) [
          | none ↦ if f.xx then a else record a {
            zset = put_score (flips a.inserted) old score member a.zset;
            inserted = a.inserted + 1;
            added = a.added + 1;
            changed = a.changed + 1;
          }
          | some v ↦ if f.nx || deq v score then a else record a {
            zset = put_score (flips a.inserted) old score member a.zset;
            inserted = a.inserted + 1;
            changed = a.changed + 1;
          }
        ])
    split none e = elim (Bool-cases f.xx) [
      | inl h ↦ rw h stays
      | inr h ↦ rw h (record {
        members = omega (arith, length-put_fresh member score a.zset.dict e);
        more = omega arith;
        unique = put-Unique member score a.zset.dict u;
      })
    ]
    split (some v) e = elim (Bool-cases (f.nx || deq v score)) [
      | inl h ↦ rw h stays
      | inr h ↦ rw h (record {
        members = omega (arith, length-put_found member score v a.zset.dict e);
        more = omega arith;
        unique = put-Unique member score a.zset.dict u;
      })
    ]

Counted-trans : (a b c : Adding) → Counted a b → Counted b c → Counted a c
Counted-trans a b c p q = record {
  members = omega (arith, p.members, q.members);
  more = omega (arith, p.more, q.more);
  unique = q.unique;
}

-- The loop of ZADD without INCR, on an even number of arguments, ends without a fault, whether all
-- scores are numbers or not: the members of the dictionary, which stay distinct, have grown by
-- exactly the number that it counts as added, and it counts no fewer as changed.
pub zadd_loop-Counted :
    (env : Env) (f : ZaddFlags) (pairs : Args) (a : Adding)
    → length pairs % 2 ≡ 0
    → Unique a.zset.dict
    → (b : Adding) × (zadd_loop env f pairs a ≡ ok b) × Counted a b
unfolding zadd_loop
zadd_loop-Counted env f [] a even u =
    (a, refl, record { members = refl; more = omega arith; unique = u })
zadd_loop-Counted env f (s ∷ []) a even u = cc
zadd_loop-Counted env f (s ∷ member ∷ rest) a even u = go (parse_score env.floats s) (λ score.
    zadd_loop-Counted env f rest (zadd_pair env.flips f score member a) (omega arith)
      (zadd_pair-Counted env.flips f score member a u).unique)
  where
    go :
        (parsed : Option ℕ)
        → ((score : ℕ)
            → (b : Adding) × (zadd_loop env f rest (zadd_pair env.flips f score member a) ≡ ok b)
              × Counted (zadd_pair env.flips f score member a) b)
        → (b : Adding) × ((elim parsed as (λ _. Run Adding) [
          | none ↦ ok (record a { refused = true })
          | some score ↦ zadd_loop env f rest (zadd_pair env.flips f score member a)
        ])
            ≡ ok b)
          × Counted a b
    go none step = (
      record a { refused = true },
      refl,
      record { members = refl; more = omega arith; unique = u },
    )
    go (some score) step =
        let (b, e, c) = step score in
        let mid = zadd_pair env.flips f score member a in
        (b, e, Counted-trans a mid b (zadd_pair-Counted env.flips f score member a u) c)

remove_member_lem :
    (m : Bytes) (z : ZSet) (n : ℕ)
    → Unique z.dict
    → (length (remove_member m z).1.dict + (if (remove_member m z).0 then n + 1 else n)
        ≡ length z.dict + n)
      × Unique (remove_member m z).1.dict
unfolding remove_member
remove_member_lem m z n u = split (find m z.dict) refl
  where
    split :
        (old : Option ℕ)
        → find m z.dict ≡ old
        → (length (remove_at m z old).1.dict + (if (remove_at m z old).0 then n + 1 else n)
            ≡ length z.dict + n)
          × Unique (remove_at m z old).1.dict
    split none e = (refl, u)
    split (some v) e = (omega (arith, length-erase m v z.dict e), erase-Unique m z.dict u)

-- x
pub zrem_loop_lem :
    (members : Args) (z : ZSet) (n : ℕ)
    → Unique z.dict
    → (length (zrem_loop members z n).0.dict + (zrem_loop members z n).1 ≡ length z.dict + n)
      × Unique (zrem_loop members z n).0.dict
unfolding zrem_loop
zrem_loop_lem [] z n u = (refl, u)
zrem_loop_lem (m ∷ members) z n u =
    let (was, z') = remove_member m z in
    let (e, u') = remove_member_lem m z n u in
    let (r, u'') = zrem_loop_lem members z' (if was then n + 1 else n) u' in (r ∙ e, u'')
