-- ===== src/Types/Text/Tests.antt =====
-- Enumerations and their texts, at single values.
use babylon_playground_demo.Common.{◌≡◌, refl, some, none}
use babylon_playground_demo.Types.{stop_loss, limit}
use babylon_playground_demo.Types.Text.{order_type_of_string, string_of_order_type}

limit_read_back : order_type_of_string (string_of_order_type limit) ≡ some limit
unfolding order_type_of_string string_of_order_type
limit_read_back = refl

stop_loss_not_read : order_type_of_string (string_of_order_type stop_loss) ≡ none
unfolding order_type_of_string string_of_order_type
stop_loss_not_read = refl
