-- ===== src/Http/Status/Prefix.antt =====
-- shero/net/http/HttpStatus.cc: `CharsToHttpMethod`, which looks for a method at the front of a text.
use shero.Common.{◌≡◌, ◌≢◌, refl, Bool, true, false, List, [], ◌∷◌, ◌++◌, ◌==◌, if◌then◌else◌}
use shero.Common.Bytes.{Bytes, c_str}
use shero.Http.Status.{
  HttpMethod, method_name, all_methods, delete, get, head, post, put, connect, options, trace, copy,
  lock, mkcol, move, propfind, proppatch, search_method, unlock, bind, rebind, unbind, acl, report,
  mkactivity, checkout, merge, msearch, notify, subscribe, unsubscribe, patch, purge, mkcalendar,
  link, unlink, source, invalid_method,
}

-- `strncmp(name, s, strlen(name)) == 0`.
unfoldable pub begins_with : Bytes → Bytes → Bool
begins_with [] s = true
begins_with (x ∷ xs) [] = false
begins_with (x ∷ xs) (y ∷ ys) = let rest = begins_with xs ys in if x == y then rest else false

-- The ladder over the methods of a list.
unfoldable pub first_method : List HttpMethod → Bytes → HttpMethod
first_method [] s = invalid_method
first_method (m ∷ ms) s =
    let later = first_method ms s in if begins_with (method_name m) (c_str s) then m else later

unfoldable pub chars_to_method : Bytes → HttpMethod
unfolding first_method
chars_to_method = first_method all_methods

-- No name of a method begins with another's: `CharsToHttpMethod` finds every method by its name,
-- whatever comes behind it.
pub chars_to_method-method_name :
    (m : HttpMethod) (rest : Bytes)
    → m ≢ invalid_method
    → chars_to_method (method_name m ++ rest) ≡ m
unfolding chars_to_method first_method method_name begins_with c_str
chars_to_method-method_name delete rest h = refl
chars_to_method-method_name get rest h = refl
chars_to_method-method_name head rest h = refl
chars_to_method-method_name post rest h = refl
chars_to_method-method_name put rest h = refl
chars_to_method-method_name connect rest h = refl
chars_to_method-method_name options rest h = refl
chars_to_method-method_name trace rest h = refl
chars_to_method-method_name copy rest h = refl
chars_to_method-method_name lock rest h = refl
chars_to_method-method_name mkcol rest h = refl
chars_to_method-method_name move rest h = refl
chars_to_method-method_name propfind rest h = refl
chars_to_method-method_name proppatch rest h = refl
chars_to_method-method_name search_method rest h = refl
chars_to_method-method_name unlock rest h = refl
chars_to_method-method_name bind rest h = refl
chars_to_method-method_name rebind rest h = refl
chars_to_method-method_name unbind rest h = refl
chars_to_method-method_name acl rest h = refl
chars_to_method-method_name report rest h = refl
chars_to_method-method_name mkactivity rest h = refl
chars_to_method-method_name checkout rest h = refl
chars_to_method-method_name merge rest h = refl
chars_to_method-method_name msearch rest h = refl
chars_to_method-method_name notify rest h = refl
chars_to_method-method_name subscribe rest h = refl
chars_to_method-method_name unsubscribe rest h = refl
chars_to_method-method_name patch rest h = refl
chars_to_method-method_name purge rest h = refl
chars_to_method-method_name mkcalendar rest h = refl
chars_to_method-method_name link rest h = refl
chars_to_method-method_name unlink rest h = refl
chars_to_method-method_name source rest h = refl
chars_to_method-method_name invalid_method rest h = absurd (h refl)
