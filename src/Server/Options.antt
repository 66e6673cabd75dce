-- ===== src/Server/Options.antt =====
-- The options of `forwardRequest` in internal/http/request.go, over what a response handler
-- changes.
use anicetus.Prelude.{List, [], ◌∷◌}
use anicetus.Errors.{Result, ok}
use anicetus.Status.{Status}
use anicetus.Message.{Text}
use anicetus.Server.Responses.{Response}

pub record ForwardRequestOptions (X : Type 0) : Type 0 where
  pub response_handler : Response → X → Result (Unit {0}) × X
  pub status : Status
  pub fingerprint : Text

abbrev pub ForwardRequestOption : Type 0 → Type 0
ForwardRequestOption X = ForwardRequestOptions X → ForwardRequestOptions X

module _ {X : Type 0} where
  abbrev pub forward_request_with_response_handler :
      (Response → X → Result (Unit {0}) × X) → ForwardRequestOption X
  forward_request_with_response_handler handler opts = record opts { response_handler = handler }

  abbrev pub forward_request_with_anicetus : Status → Text → ForwardRequestOption X
  forward_request_with_anicetus status fingerprint opts = record opts {
    status = status;
    fingerprint = fingerprint;
  }

  -- The options of a call without any.
  abbrev pub default_options : ForwardRequestOptions X
  default_options = record {
    response_handler = λ _ x. (ok tt, x);
    status = Status.none;
    fingerprint = [];
  }

  abbrev pub apply_options :
      List (ForwardRequestOption X) → ForwardRequestOptions X → ForwardRequestOptions X
  apply_options [] opts = opts
  apply_options (opt_func ∷ opt_funcs) opts = apply_options opt_funcs (opt_func opts)
