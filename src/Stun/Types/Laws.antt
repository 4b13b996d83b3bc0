-- ===== src/Stun/Types/Laws.antt =====
-- Method and class can be read back from a message type.
use p2p_cluster.Common.{
  ℕ, ◌<◌, ◌≡◌, refl, Bool, true, false, ltb, ◌==◌, ◌&&◌, not, if◌then◌else◌, arith,
}
use p2p_cluster.Common.Tables.{passes, passes_at}
use p2p_cluster.Stun.Types.{
  stun_make_type, method_of_type, is_stun_request, is_stun_indication, is_stun_success_resp,
  is_stun_err_resp, stun_make_request, stun_make_indication, stun_make_success_response,
  stun_make_error_response,
}

pub data Class : Type 0 where
  request indication success error : Class

-- stun_make_request and its neighbours
abbrev pub make : Class → ℕ → ℕ
make request m = stun_make_request m
make indication m = stun_make_indication m
make success m = stun_make_success_response m
make error m = stun_make_error_response m

abbrev pub is_class : Class → ℕ → Bool
is_class request t = is_stun_request t
is_class indication t = is_stun_indication t
is_class success t = is_stun_success_resp t
is_class error t = is_stun_err_resp t

abbrev pub same : Class → Class → Bool
same request request = true
same indication indication = true
same success success = true
same error error = true
same _ _ = false

-- What a type says of its method and class.
abbrev pub IsType : Class → ℕ → ℕ → Type 0
IsType c m t = (method_of_type t ≡ m) × ((d : Class) → is_class d t ≡ same c d) × (t < 0x4000)

agrees : Bool → Bool → Bool
agrees a b = if a then b else not b

agrees_lem : (a b : Bool) → agrees a b ≡ true → a ≡ b
unfolding agrees
agrees_lem a b h = ground arith

check : Class → ℕ → Bool
check c m =
    let t = make c m in
    method_of_type t == m
    && (ltb t 0x4000
        && (agrees (is_stun_request t) (same c request)
            && (agrees (is_stun_indication t) (same c indication)
                && (agrees (is_stun_success_resp t) (same c success)
                    && agrees (is_stun_err_resp t) (same c error)))))

-- All 4096 methods in each of the four classes.
check_all : (c : Class) → passes (check c) 4096 ≡ true
unfolding passes check agrees stun_make_request stun_make_indication stun_make_success_response
    stun_make_error_response stun_make_type method_of_type is_stun_request is_stun_indication
    is_stun_success_resp is_stun_err_resp
check_all request = refl
check_all indication = refl
check_all success = refl
check_all error = refl

check_sound : (c : Class) (m : ℕ) → check c m ≡ true → IsType c m (make c m)
unfolding check
check_sound c m h = (ground arith, classes, ground arith)
  where
    classes : (d : Class) → is_class d (make c m) ≡ same c d
    classes request = agrees_lem _ _ (ground arith)
    classes indication = agrees_lem _ _ (ground arith)
    classes success = agrees_lem _ _ (ground arith)
    classes error = agrees_lem _ _ (ground arith)

-- For each of the 4096 methods and each class, the type made for them has exactly that class by
-- the four tests, gives the method back, and is below 0x4000.
pub make-IsType : (c : Class) (m : ℕ) → m < 4096 → IsType c m (make c m)
make-IsType c m h = check_sound c m (passes_at (check c) 4096 (check_all c) h)
