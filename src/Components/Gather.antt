-- ===== src/Components/Gather.antt =====
-- Actions that all run, with their errors joined at the end, as errors.Join does.
use eks_hybrid.Base.{List, [], ◌∷◌, Err, join_cons, join_end, Result, ok, err}
use eks_hybrid.Machine.{World, Exec}

unfoldable pub join : List Err → Err
join [] = join_end
join (e ∷ es) = join_cons e (join es)

abbrev pub push_err : Result (Unit {0}) → List Err → List Err
push_err (ok _) es = es
push_err (err e) es = e ∷ es

unfoldable pub gather : List (Exec (Unit {0})) → World → List Err × World
gather [] w = ([], w)
gather (m ∷ ms) w = let (r, w') = m w in let (es, w'') = gather ms w' in (push_err r es, w'')

abbrev pub joined : List Err → Result (Unit {0})
joined [] = ok tt
joined (e ∷ es) = err (join (e ∷ es))

unfoldable pub run_all : List (Exec (Unit {0})) → Exec (Unit {0})
unfolding gather
run_all ms w = let (es, w') = gather ms w in (joined es, w')
