-- ===== src/Page/Fields.antt =====
-- pageFieldSpecs of budget/v1alpha1/page.go: the layout table in order.
pub mod Groups
pub mod Platform
pub mod Slots
use apis.Prelude.{List, ◌++◌}
use apis.Page.Field.{PageField}
use Groups.{
  header_fields, identity_fields, capacity_fields, level_field, action_fields, minor1_fields,
}
use Platform.{darwin_fields, psi_fields, memory_event_fields}
use Slots.{signal_fields, counter_fields}

unfoldable pub page_field_specs : List PageField
unfolding header_fields identity_fields capacity_fields level_field darwin_fields psi_fields
    memory_event_fields signal_fields action_fields counter_fields minor1_fields
page_field_specs =
    header_fields
    ++ (identity_fields
        ++ (capacity_fields
            ++ (level_field
                ++ (darwin_fields
                    ++ (psi_fields
                        ++ (memory_event_fields
                            ++ (signal_fields
                                ++ (action_fields ++ (counter_fields ++ minor1_fields)))))))))
