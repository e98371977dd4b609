-- ===== src/Boot/HttpHeader/Values.antt =====
-- Of an http.Header: the values of a name after a change.
use rk_grpc.Prelude.{String, ◌≡◌, List, [], ◌∷◌, str_eq, eq_iff, if◌then◌else◌, arith}
use rk_grpc.Boot.HttpHeader.{Header, put_values}
use rk_grpc.Middleware.Address.{values_of}

pub values_of-put_values :
    (c k : String) (f : List String → List String) (h : Header)
    → values_of c (put_values k f h) ≡ (if str_eq k c then f (values_of c h) else values_of c h)
unfolding values_of put_values
values_of-put_values c k f [] = ground arith
values_of-put_values c k f ((j, vs) ∷ h) =
    ground (arith, eq_iff k c, eq_iff j k, eq_iff j c, values_of-put_values c k f h)
